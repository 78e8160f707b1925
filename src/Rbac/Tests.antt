-- ===== src/Rbac/Tests.antt =====
-- A role that is taken away while it is cached, and the theorem about the caches of shared/rbac.py.
use nbes_backend.Base.{
  ℕ, ◌+◌, ◌<◌, ◌==◌, ◌≡◌, ◌⊎◌, inl, inr, refl, String, Bool, true, false, ◌&&◌, Option, none, some,
  List, [], ◌∷◌, ap, arith, ltb, if◌then◌else◌, Bool-cases, str_eq, eq_iff,
}
use nbes_backend.ItemBank.Review.{Auth}
use nbes_backend.Rbac.Lookup.{
  CacheKey, user_key, role_key, CacheApi, CacheLaws, Db, lookup, permissions_for, permissions_now,
  has_permission, cache_call, query_user_roles, query_permissions,
}
use nbes_backend.Rbac.Freshness.{CacheAt, IsSettled, permissions_for_settled}

abbrev Cached : Type 0
Cached = List (CacheKey × List String × ℕ)

abbrev same_key : CacheKey → CacheKey → Bool
same_key (user_key a) (user_key b) = a == b
same_key (role_key a) (role_key b) = str_eq a b
same_key (user_key a) (role_key b) = false
same_key (role_key a) (user_key b) = false

same_key_sound : (a b : CacheKey) → same_key a b ≡ true → a ≡ b
same_key_sound (user_key a) (user_key b) h = ap user_key (ground arith)
same_key_sound (role_key a) (role_key b) h = ap role_key (ground (arith, eq_iff a b))
same_key_sound (user_key a) (role_key b) h = cc h
same_key_sound (role_key a) (user_key b) h = cc h

abbrev found_in : ℕ → CacheKey → Cached → Option (List String)
found_in now key [] = none
found_in now key ((k, v, until) ∷ rest) =
    if same_key k key && ltb now until then some v else found_in now key rest

abbrev cached : CacheApi Cached
cached = record {
  get = found_in;
  set = λ since key value ttl c. (key, value, since + ttl) ∷ c;
  delete = λ key c. [];
}

found_set :
    (now since : ℕ) (key other : CacheKey) (value found : List String) (ttl : ℕ) (c : Cached)
    → found_in now key ((other, value, since + ttl) ∷ c) ≡ some found
    → ((other ≡ key) × (value ≡ found) × (now < since + ttl)) ⊎ (found_in now key c ≡ some found)
found_set now since key other value found ttl c e = elim (Bool-cases (same_key other key)) [
  | inl k ↦ elim (Bool-cases (ltb now (since + ttl))) [
    | inl l ↦ inl (same_key_sound other key k, ground arith, ground arith)
    | inr l ↦ inr (ground arith)
  ]
  | inr k ↦ inr (ground arith)
]

cached_laws : CacheLaws Cached cached
cached_laws = record { get_set = found_set; get_delete = λ now key other found c e. cc e }

abbrev assigned : Bool → Db
assigned is_revoked = record {
  assignments =
      record {
        keycloak_sub = 7;
        role = "item_writer";
        effective_from = 0;
        effective_to = none;
        is_revoked = is_revoked;
      }
      ∷ [];
  roles = record { name = "item_writer"; is_active = true } ∷ [];
  grants = record { role = "item_writer"; codename = "item.create" } ∷ [];
}

-- The role is taken away after 100 seconds.
abbrev timeline : ℕ → Db
timeline s = assigned (if ltb s 100 then false else true)

abbrev writer : Auth
writer = record { sub = 7; resource_roles = none; realm_roles = none }

abbrev after_lookup : Cached
after_lookup = cache_call cached 99 (timeline 99) (lookup false writer "item.create") []

lookup_then : (has_permission cached 99 false writer "item.create" (timeline 99) []).0 ≡ true
unfolding has_permission
lookup_then = refl

-- Eleven seconds after the revocation the cache still grants it.
lookup_stale :
    (has_permission cached 111 false writer "item.create" (timeline 111) after_lookup).0 ≡ true
unfolding has_permission cache_call
lookup_stale = refl

settled : IsSettled cached cached_laws timeline 160 7
unfolding query_user_roles query_permissions
settled = record {
  user = λ s p q. (let e : ltb s 100 ≡ false = ground arith in rw e refl);
  role = λ s r p q. refl;
}

permissions_for_settled_example :
    (permissions_for cached 160 false writer (timeline 160) after_lookup).0
    ≡ permissions_now 160 writer (timeline 160)
permissions_for_settled_example =
    permissions_for_settled cached cached_laws timeline 160 writer after_lookup
      (CacheAt.later 99 160 after_lookup
        (CacheAt.call 0 99 [] (lookup false writer "item.create")
          (CacheAt.empty 0 [] (λ now key. refl)) (omega arith))
        (omega arith))
      settled
