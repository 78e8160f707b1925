-- ===== src/Transaction.antt =====
-- A service call under `@transaction.atomic`, on tables of any type: a function of the tables that
-- gives a result and the new tables, or an exception, and then no tables.
use nbes_backend.Base.{◌≡◌, Bool, true, false, Result, ok, err}

abbrev pub Call : Type 0 → Type 0 → Type 0 → Type 0
Call S E A = S → Result E (A × S)

module _ {S E A : Type 0} where
  abbrev pub give : A → Call S E A
  give a w = ok (a, w)

  abbrev pub fail : E → Call S E A
  fail e w = err e

  abbrev pub read : (S → A) → Call S E A
  read f w = ok (f w, w)

infixl 5 ◌>>=◌ ◌>>◌
abbrev pub ◌>>=◌ : {S E A B : Type 0} → Call S E A → (A → Call S E B) → Call S E B
◌>>=◌ m f w = elim (m w) [ ok (a, w') ↦ f a w' | err e ↦ err e ]

abbrev pub ◌>>◌ : {S E A B : Type 0} → Call S E A → Call S E B → Call S E B
m >> k = m >>= λ _. k

abbrev pub change : {S E : Type 0} → (S → S) → Call S E (Unit {0})
change f w = ok (tt, f w)

-- `if test: raise e`
abbrev pub raise_if : {S E : Type 0} → Bool → E → Call S E (Unit {0})
raise_if true e w = err e
raise_if false e w = ok (tt, w)

-- After a call that returns, the next one goes on from its tables.
pub >>_ok :
    {S E A B : Type 0} (m : Call S E A) (k : Call S E B) (w w' : S) {a : A} {r : Result E (B × S)}
    → m w ≡ ok (a, w')
    → k w' ≡ r
    → (m >> k) w ≡ r
>>_ok m k w w' e f = cc
