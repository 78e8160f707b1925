-- ===== src/Env.antt =====
-- What the backend calls in Django, the standard library and the database driver. Only the code
-- under `apps`, `shared` and `workflow` is modelled; these functions stand for the rest.
use nbes_backend.Base.{Bool, ℕ, String, Option, List, ℤ}
use nbes_backend.Python.{Value, Dict}

-- The dict that `AuditEvent._record_atomic` dumps, before `str` and `isoformat`.
pub record Payload : Type 0 where
  pub event_id : ℕ
  pub actor_id : Option ℕ
  pub action : String
  pub entity_type : String
  pub entity_id : String
  pub old_state : Option Dict
  pub new_state : Option Dict
  pub created_at : ℕ

pub record Env : Type 0 where
  -- `Decimal(s)` in hundredths, `none` for InvalidOperation
  pub parse_decimal : String → Option ℤ
  -- `int(s)`, `none` for ValueError
  pub parse_int : String → Option ℤ
  -- `str(v)`, `isoformat` of a date and of a datetime, `str` of a UUID
  pub str_value : Value → String
  pub iso_date : ℕ → String
  pub iso_datetime : ℕ → String
  pub str_uuid : ℕ → String
  -- `s.lower().replace("-", "_")`
  pub role_name : String → String
  -- whether the model of `get_user_model()` has a field `keycloak_sub`: the user of Django, which stands
  -- where the settings name no AUTH_USER_MODEL, has none, and a lookup by it raises FieldError
  pub user_has_sub : Bool
  -- `uuid.UUID(s)`, `none` for ValueError
  pub parse_uuid : String → Option ℕ
  -- `float(s)` as a DecimalField of two places stores it, `none` for ValueError
  pub parse_float : String → Option ℤ
  -- `strftime("%d %B %Y")` of a datetime
  pub strftime : ℕ → String
  -- JSON that is nested deeper than `Value`, as a text, and `str` of a BlueprintVersion
  pub dumps : List Dict → String
  pub str_blueprint : ℕ → String
  -- What `save` writes to a named column for an attribute, `none` where the conversion or a
  -- constraint of the column refuses.
  pub clean : String → Value → Option Value
  -- `sha256(f"{previous}{json.dumps(payload, sort_keys=True)}".encode()).hexdigest()`
  pub seal : String → Payload → String
