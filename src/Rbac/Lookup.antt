-- ===== src/Rbac/Lookup.antt =====
-- `permissions_for` and `has_permission` of shared/rbac.py, with their two caches. The cache is the web
-- framework's, and a parameter; sets are lists, asked only for their members.
use nbes_backend.Base.{
  ℕ, ◌+◌, ◌/◌, ◌<◌, ◌==◌, ◌≡◌, ◌⊎◌, String, Bool, true, not, ◌&&◌, ◌||◌, Option, none, some, List,
  [], ◌∷◌, ◌++◌, map, select, any, str_eq, leb, if◌then◌else◌,
}
use nbes_backend.ItemBank.Review.{Auth, only_texts, get_nbes_role_names}

-- `_USER_CACHE_PREFIX + sub` and `_CACHE_PREFIX + role_name`: the prefixes differ and neither starts the other.
pub data CacheKey : Type 0 where
  user_key : ℕ → CacheKey
  role_key : String → CacheKey

-- `django.core.cache`: a value under a key for some seconds from a time on, or until it is dropped.
pub record CacheApi (Store : Type 0) : Type 0 where
  pub get : ℕ → CacheKey → Store → Option (List String)
  pub set : ℕ → CacheKey → List String → ℕ → Store → Store
  pub delete : CacheKey → Store → Store

-- What the documentation says of it: a value that is found has been set, less than its seconds ago.
pub record CacheLaws (Store : Type 0) (cache : CacheApi Store) : Type 0 where
  pub get_set :
      (now since : ℕ) (key other : CacheKey) (value found : List String) (ttl : ℕ) (c : Store)
      → cache.get now key (cache.set since other value ttl c) ≡ some found
      → ((other ≡ key) × (value ≡ found) × (now < since + ttl)) ⊎ (cache.get now key c ≡ some found)
  pub get_delete :
      (now : ℕ) (key other : CacheKey) (found : List String) (c : Store)
      → cache.get now key (cache.delete other c) ≡ some found
      → cache.get now key c ≡ some found

-- A row of `UserRole`, with the subject of its user and the name of its role.
pub record Assignment : Type 0 where
  pub keycloak_sub : ℕ
  pub role : String
  pub effective_from : ℕ
  pub effective_to : Option ℕ
  pub is_revoked : Bool

pub record RoleRow : Type 0 where
  pub name : String
  pub is_active : Bool

-- A row of `RolePermission`, by its role and its codename.
pub record Grant : Type 0 where
  pub role : String
  pub codename : String

pub record Db : Type 0 where
  pub assignments : List Assignment
  pub roles : List RoleRow
  pub grants : List Grant

abbrev is_until : Option ℕ → ℕ → Bool
is_until none today = true
is_until (some d) today = leb today d

abbrev is_current : ℕ → ℕ → Assignment → Bool
is_current sub today a =
    (a.keycloak_sub == sub)
    && (not a.is_revoked && (leb a.effective_from today && is_until a.effective_to today))

-- The query of `_user_db_roles` at a time in seconds.
unfoldable pub query_user_roles : ℕ → ℕ → Db → List String
query_user_roles now sub db =
    map (λ (a : Assignment). a.role) (select (is_current sub (now / 86400)) db.assignments)

abbrev pub has_active : String → List RoleRow → Bool
has_active name roles = any (λ (r : RoleRow). str_eq r.name name && r.is_active) roles

-- The query of `_permissions_for_role`.
unfoldable pub query_permissions : String → Db → List String
query_permissions role db =
    map (λ (g : Grant). g.codename)
      (select (λ (g : Grant). str_eq g.role role && has_active role db.roles) db.grants)

abbrev is_named_in : String → List String → Bool
is_named_in s l = any (λ x. str_eq x s) l

-- `Role.objects.filter(name__in=all_roles, is_active=True)`
unfoldable pub query_known : List String → Db → List String
query_known names db =
    map (λ (r : RoleRow). r.name)
      (select (λ (r : RoleRow). r.is_active && is_named_in r.name names) db.roles)

abbrev pub cache_ttl : ℕ
cache_ttl = 60

abbrev realm_list : Auth → List String
realm_list auth = elim auth.realm_roles [ none ↦ [] | some roles ↦ only_texts roles ]

abbrev pub has_super_admin : Auth → Bool
has_super_admin auth = is_named_in "super_admin" (realm_list auth)

module _ {Store : Type 0} (cache : CacheApi Store) where
  -- `_user_db_roles`, with the cache after it
  unfoldable pub user_db_roles : ℕ → ℕ → Db → Store → List String × Store
  unfolding query_user_roles
  user_db_roles now sub db c = elim (cache.get now (user_key sub) c) [
    | some roles ↦ (roles, c)
    | none ↦
        let roles = query_user_roles now sub db in
        (roles, cache.set now (user_key sub) roles cache_ttl c)
  ]

  unfoldable pub permissions_for_role : ℕ → String → Db → Store → List String × Store
  unfolding query_permissions
  permissions_for_role now role db c = elim (cache.get now (role_key role) c) [
    | some codenames ↦ (codenames, c)
    | none ↦
        let codenames = query_permissions role db in
        (codenames, cache.set now (role_key role) codenames cache_ttl c)
  ]

  -- `for role_name in known: permissions |= _permissions_for_role(role_name)`
  unfoldable pub union_of : ℕ → List String → Db → Store → List String × Store
  unfolding permissions_for_role
  union_of now [] db c = ([], c)
  union_of now (r ∷ rest) db c =
      let (one, c1) = permissions_for_role now r db c in
      let (more, c2) = union_of now rest db c1 in (one ++ more, c2)

  -- The roles of a token count only where the query of the user's roles raises.
  unfoldable pub roles_of : ℕ → Bool → Auth → Db → Store → List String × Store
  unfolding user_db_roles get_nbes_role_names
  roles_of now is_down auth db c = elim (cache.get now (user_key auth.sub) c) [
    | some roles ↦ (roles, c)
    | none ↦ if is_down then (get_nbes_role_names auth, c) else user_db_roles now auth.sub db c
  ]

  unfoldable pub permissions_for : ℕ → Bool → Auth → Db → Store → List String × Store
  unfolding roles_of query_known union_of only_texts
  permissions_for now is_down auth db c =
      if has_super_admin auth
      then ("*" ∷ [], c)
      else let (all_roles, c1) = roles_of now is_down auth db c in
        union_of now (query_known all_roles db) db c1

  unfoldable pub has_permission : ℕ → Bool → Auth → String → Db → Store → Bool × Store
  unfolding permissions_for
  has_permission now is_down auth codename db c =
      let (granted, c1) = permissions_for now is_down auth db c in
      (is_named_in "*" granted || is_named_in codename granted, c1)

  -- What the requests of the backend do with the caches.
  pub data CacheCall : Type 0 where
    lookup : Bool → Auth → String → CacheCall
    invalidate_role : String → CacheCall
    invalidate_user : ℕ → CacheCall

  unfoldable pub cache_call : ℕ → Db → CacheCall → Store → Store
  unfolding has_permission
  cache_call now db (lookup is_down auth codename) c =
      (has_permission now is_down auth codename db c).1
  cache_call now db (invalidate_role role) c = cache.delete (role_key role) c
  cache_call now db (invalidate_user sub) c = cache.delete (user_key sub) c

-- The same without any cache.
unfoldable pub union_now : List String → Db → List String
unfolding query_permissions
union_now [] db = []
union_now (r ∷ rest) db = query_permissions r db ++ union_now rest db

unfoldable pub permissions_now : ℕ → Auth → Db → List String
unfolding query_user_roles query_known union_now only_texts
permissions_now now auth db =
    if has_super_admin auth
    then "*" ∷ []
    else union_now (query_known (query_user_roles now auth.sub db) db) db
