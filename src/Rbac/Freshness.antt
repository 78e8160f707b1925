-- ===== src/Rbac/Freshness.antt =====
-- How old an answer the caches of shared/rbac.py can give.
use nbes_backend.Base.{
  ℕ, ◌+◌, ◌≤◌, ◌<◌, ◌≡◌, inl, inr, refl, sym, ap, ◌∙◌, String, Bool, true, false, none, some, List,
  [], ◌∷◌, Option-cases, Bool-cases, arith,
}
use nbes_backend.ItemBank.Review.{Auth}
use nbes_backend.Rbac.Lookup.{
  CacheKey, user_key, role_key, CacheApi, CacheLaws, Db, CacheCall, lookup, invalidate_role,
  invalidate_user, cache_call, cache_ttl, query_user_roles, query_permissions, query_known,
  user_db_roles, permissions_for_role, union_of, roles_of, permissions_for, has_permission,
  union_now, permissions_now, has_super_admin,
}

module _ {Store : Type 0} (cache : CacheApi Store) (laws : CacheLaws Store cache)
    (db : ℕ → Db) where
  -- Of what a cached list is the answer, and when it was asked.
  pub record Origin (t now : ℕ) (key : CacheKey) (value : List String) : Type 0 where
    pub since : ℕ
    pub is_past : since ≤ t
    pub is_kept : now < since + 60
    pub of_user : (sub : ℕ) → key ≡ user_key sub → value ≡ query_user_roles since sub (db since)
    pub of_role : (role : String) → key ≡ role_key role → value ≡ query_permissions role (db since)

  abbrev pub IsFresh : ℕ → Store → Type 0
  IsFresh t c =
      (now : ℕ) (key : CacheKey) (value : List String)
      → cache.get now key c ≡ some value
      → Origin t now key value

  later-IsFresh : (t t' : ℕ) (c : Store) → t ≤ t' → IsFresh t c → IsFresh t' c
  later-IsFresh t t' c h f now key value e =
      let o = f now key value e in
      record {
        since = o.since;
        is_past = omega arith;
        is_kept = o.is_kept;
        of_user = o.of_user;
        of_role = o.of_role;
      }

  set-IsFresh :
      (t : ℕ) (key : CacheKey) (value : List String) (c : Store)
      → ((sub : ℕ) → key ≡ user_key sub → value ≡ query_user_roles t sub (db t))
      → ((role : String) → key ≡ role_key role → value ≡ query_permissions role (db t))
      → IsFresh t c
      → IsFresh t (cache.set t key value cache_ttl c)
  set-IsFresh t key value c u r f now k found e =
      elim (laws.get_set now t k key value found cache_ttl c e) [
        | inl i ↦ record {
          since = t;
          is_past = omega arith;
          is_kept = i.2;
          of_user = λ sub j. sym i.1 ∙ u sub (i.0 ∙ j);
          of_role = λ role j. sym i.1 ∙ r role (i.0 ∙ j);
        }
        | inr i ↦ f now k found i
      ]

  user_db_roles-IsFresh :
      (t sub : ℕ) (c : Store) → IsFresh t c → IsFresh t (user_db_roles cache t sub (db t) c).1
  unfolding user_db_roles
  user_db_roles-IsFresh t sub c f = elim (Option-cases (cache.get t (user_key sub) c)) [
    | inl e ↦
        rw (user_db_roles, e)
          (set-IsFresh t (user_key sub) (query_user_roles t sub (db t)) c
            (λ s j. ap (λ x. query_user_roles t x (db t)) (cc j)) (λ role j. cc j) f)
    | inr (v, e) ↦ rw (user_db_roles, e) f
  ]

  permissions_for_role-IsFresh :
      (t : ℕ) (role : String) (c : Store)
      → IsFresh t c
      → IsFresh t (permissions_for_role cache t role (db t) c).1
  unfolding permissions_for_role
  permissions_for_role-IsFresh t role c f = elim (Option-cases (cache.get t (role_key role) c)) [
    | inl e ↦
        rw (permissions_for_role, e)
          (set-IsFresh t (role_key role) (query_permissions role (db t)) c (λ s j. cc j)
            (λ r j. ap (λ x. query_permissions x (db t)) (cc j)) f)
    | inr (v, e) ↦ rw (permissions_for_role, e) f
  ]

  union_of-IsFresh :
      (t : ℕ) (roles : List String) (c : Store)
      → IsFresh t c
      → IsFresh t (union_of cache t roles (db t) c).1
  unfolding union_of
  union_of-IsFresh t [] c f = f
  union_of-IsFresh t (r ∷ rest) c f =
      union_of-IsFresh t rest (permissions_for_role cache t r (db t) c).1
        (permissions_for_role-IsFresh t r c f)

  roles_of-IsFresh :
      (t : ℕ) (is_down : Bool) (auth : Auth) (c : Store)
      → IsFresh t c
      → IsFresh t (roles_of cache t is_down auth (db t) c).1
  unfolding roles_of
  roles_of-IsFresh t true auth c f = elim (Option-cases (cache.get t (user_key auth.sub) c)) [
    | inl e ↦ rw (roles_of, e) f
    | inr (v, e) ↦ rw (roles_of, e) f
  ]
  roles_of-IsFresh t false auth c f = elim (Option-cases (cache.get t (user_key auth.sub) c)) [
    | inl e ↦ rw (roles_of, e) (user_db_roles-IsFresh t auth.sub c f)
    | inr (v, e) ↦ rw (roles_of, e) f
  ]

  permissions_for-IsFresh :
      (t : ℕ) (is_down : Bool) (auth : Auth) (c : Store)
      → IsFresh t c
      → IsFresh t (permissions_for cache t is_down auth (db t) c).1
  unfolding permissions_for
  permissions_for-IsFresh t is_down auth c f = elim (Bool-cases (has_super_admin auth)) [
    | inl e ↦ rw (permissions_for, e) f
    | inr e ↦
        rw (permissions_for, e)
          (union_of-IsFresh t (query_known (roles_of cache t is_down auth (db t) c).0 (db t))
            (roles_of cache t is_down auth (db t) c).1 (roles_of-IsFresh t is_down auth c f))
  ]

  delete-IsFresh :
      (t : ℕ) (key : CacheKey) (c : Store) → IsFresh t c → IsFresh t (cache.delete key c)
  delete-IsFresh t key c f now k value e = f now k value (laws.get_delete now k key value c e)

  cache_call-IsFresh :
      (t : ℕ) (call : CacheCall cache) (c : Store)
      → IsFresh t c
      → IsFresh t (cache_call cache t (db t) call c)
  unfolding cache_call has_permission
  cache_call-IsFresh t (lookup is_down auth codename) c f =
      permissions_for-IsFresh t is_down auth c f
  cache_call-IsFresh t (invalidate_role role) c f = delete-IsFresh t (role_key role) c f
  cache_call-IsFresh t (invalidate_user sub) c f = delete-IsFresh t (user_key sub) c f

  -- The cache at a time, after calls in the order of their times from an empty cache.
  pub data CacheAt : ℕ → Store → Type 0 where
    empty :
        (t : ℕ) (c : Store)
        → ((now : ℕ) (key : CacheKey) → cache.get now key c ≡ none)
        → CacheAt t c
    call :
        (t now : ℕ) (c : Store) (k : CacheCall cache)
        → CacheAt t c
        → t ≤ now
        → CacheAt now (cache_call cache now (db now) k c)
    later : (t now : ℕ) (c : Store) → CacheAt t c → t ≤ now → CacheAt now c

  CacheAt-IsFresh : (t : ℕ) (c : Store) → CacheAt t c → IsFresh t c
  CacheAt-IsFresh t c (CacheAt.empty _ _ n) = λ now key value e. cc (n now key, e)
  CacheAt-IsFresh t c (CacheAt.call t0 _ c0 k h l) =
      cache_call-IsFresh t k c0 (later-IsFresh t0 t c0 l (CacheAt-IsFresh t0 c0 h))
  CacheAt-IsFresh t c (CacheAt.later t0 _ _ h l) = later-IsFresh t0 t c l (CacheAt-IsFresh t0 c h)

  -- The rows that the queries read have answered the same for a minute.
  pub record IsSettled (now sub : ℕ) : Type 0 where
    pub user :
        (s : ℕ)
        → s ≤ now
        → now < s + 60
        → query_user_roles s sub (db s) ≡ query_user_roles now sub (db now)
    pub role :
        (s : ℕ) (r : String)
        → s ≤ now
        → now < s + 60
        → query_permissions r (db s) ≡ query_permissions r (db now)

  user_now :
      (now sub : ℕ) (c : Store)
      → IsSettled now sub
      → IsFresh now c
      → (user_db_roles cache now sub (db now) c).0 ≡ query_user_roles now sub (db now)
  unfolding user_db_roles
  user_now now sub c u f = elim (Option-cases (cache.get now (user_key sub) c)) [
    | inl e ↦ rw (user_db_roles, e) refl
    | inr (v, e) ↦
        let o = f now (user_key sub) v e in
        rw (user_db_roles, e) (o.of_user sub refl ∙ u.user o.since o.is_past o.is_kept)
  ]

  role_now :
      (now sub : ℕ) (r : String) (c : Store)
      → IsSettled now sub
      → IsFresh now c
      → (permissions_for_role cache now r (db now) c).0 ≡ query_permissions r (db now)
  unfolding permissions_for_role
  role_now now sub r c u f = elim (Option-cases (cache.get now (role_key r) c)) [
    | inl e ↦ rw (permissions_for_role, e) refl
    | inr (v, e) ↦
        let o = f now (role_key r) v e in
        rw (permissions_for_role, e) (o.of_role r refl ∙ u.role o.since r o.is_past o.is_kept)
  ]

  union_of-now :
      (now sub : ℕ) (roles : List String) (c : Store)
      → IsSettled now sub
      → IsFresh now c
      → (union_of cache now roles (db now) c).0 ≡ union_now roles (db now)
  unfolding union_of union_now
  union_of-now now sub [] c u f = refl
  union_of-now now sub (r ∷ rest) c u f =
      let c1 = (permissions_for_role cache now r (db now) c).1 in
      rw
        (
          role_now now sub r c u f,
          union_of-now now sub rest c1 u (permissions_for_role-IsFresh now r c f),
        )
        refl

  roles_of-now :
      (now : ℕ) (auth : Auth) (c : Store)
      → IsSettled now auth.sub
      → IsFresh now c
      → (roles_of cache now false auth (db now) c).0 ≡ query_user_roles now auth.sub (db now)
  unfolding roles_of
  roles_of-now now auth c u f = elim (Option-cases (cache.get now (user_key auth.sub) c)) [
    | inl e ↦ rw (roles_of, e) (user_now now auth.sub c u f)
    | inr (v, e) ↦
        let o = f now (user_key auth.sub) v e in
        rw (roles_of, e) (o.of_user auth.sub refl ∙ u.user o.since o.is_past o.is_kept)
  ]

  -- Whatever lookups and invalidations went before, from an empty cache and in the order of time: where the
  -- assignments of the user and the permissions of the roles have answered the same for 60 seconds, and the
  -- query of the user's roles does not raise, `permissions_for` gives what it gives without a cache. So an
  -- assignment or a grant that is taken away stops counting within 60 seconds, with no invalidation needed.
  pub permissions_for_settled :
      (now : ℕ) (auth : Auth) (c : Store)
      → CacheAt now c
      → IsSettled now auth.sub
      → (permissions_for cache now false auth (db now) c).0 ≡ permissions_now now auth (db now)
  unfolding permissions_for permissions_now
  permissions_for_settled now auth c h u =
      let f = CacheAt-IsFresh now c h in
      elim (Bool-cases (has_super_admin auth)) [
        | inl e ↦ rw (permissions_for, permissions_now, e) refl
        | inr e ↦
            rw (permissions_for, permissions_now, e, roles_of-now now auth c u f)
              (union_of-now now auth.sub
                (query_known (query_user_roles now auth.sub (db now)) (db now))
                (roles_of cache now false auth (db now) c).1 u
                (roles_of-IsFresh now false auth c f))
      ]
