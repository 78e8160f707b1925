-- ===== src/Python.antt =====
-- Python values as the services handle them: what a JSON body or a model field may hold, with the
-- tests, conversions and comparisons that the source applies to it. Decimals are counted in
-- hundredths, the `decimal_places=2` of the columns; JSON floats have no constructor.
pub mod Text
use nbes_backend.Base.{
  ℕ, ◌*◌, String, Bool, true, false, Option, none, some, List, [], ◌∷◌, map, str_eq, if◌then◌else◌,
  ℤ, pos, pos_part, neg_part, ltb_ℤ, sub_ℕ, eqb_ℤ, Result, ok, err,
}

pub data Value : Type 0 where
  null : Value
  boolean : Bool → Value
  text : String → Value
  number : ℤ → Value
  decimal : ℤ → Value
  date : ℕ → Value
  listing : List String → Value
  mapping : List (String × String) → Value

-- A dict in insertion order.
abbrev pub Dict : Type 0
Dict = List (String × Value)

-- Exceptions that the services let escape.
pub data Fault : Type 0 where
  type_error value_error attribute_error invalid_operation database_error field_error : Fault

abbrev pub is_null : Value → Bool
is_null null = true
is_null _ = false

-- `n` as hundredths
abbrev pub hundredths : ℤ → ℤ
hundredths n = sub_ℕ (100 * pos_part n) (100 * neg_part n)

-- The number that a Decimal is compared with, `none` where Python raises TypeError.
abbrev pub comparable : Value → Option ℤ
comparable (decimal d) = some d
comparable (number n) = some (hundredths n)
comparable (boolean true) = some (pos 100)
comparable (boolean false) = some (pos 0)
comparable _ = none

-- `d < v` and `d > v` for a Decimal `d`
unfoldable pub decimal_lt : ℤ → Value → Result Fault Bool
decimal_lt d v = elim (comparable v) [ none ↦ err type_error | some b ↦ ok (ltb_ℤ d b) ]

unfoldable pub decimal_gt : ℤ → Value → Result Fault Bool
decimal_gt d v = elim (comparable v) [ none ↦ err type_error | some b ↦ ok (ltb_ℤ b d) ]

-- `v.isoformat()`, which only a date has
unfoldable pub isoformat : (ℕ → String) → Value → Result Fault String
isoformat render (date d) = ok (render d)
isoformat render _ = err attribute_error

-- `d.get(k)`
unfoldable pub get : String → Dict → Option Value
get k [] = none
get k ((j, v) ∷ d) = if str_eq j k then some v else get k d

-- The texts of one character, `list(s)`.
abbrev pub characters : String → List String
characters String.[] = []
characters (String.◌∷◌ c s) = (String.◌∷◌ c String.[]) ∷ characters s

-- `list(v or [])`
unfoldable pub list_of : Value → Result Fault (List String)
list_of null = ok []
list_of (boolean b) = if b then err type_error else ok []
list_of (text s) = ok (characters s)
list_of (number n) = if eqb_ℤ n (pos 0) then ok [] else err type_error
list_of (decimal d) = if eqb_ℤ d (pos 0) then ok [] else err type_error
list_of (date d) = err type_error
list_of (listing l) = ok l
list_of (mapping m) = ok (map (λ p. p.0) m)
