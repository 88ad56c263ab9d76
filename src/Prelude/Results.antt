-- ===== src/Prelude/Results.antt =====
-- The errors of db/errors.go, and results that carry them. `other` is an error that is none of
-- those variables: one of a library, or one made on the spot by fmt.Errorf.
use mathlib.Core.Path.{◌≡◌, refl}
use mathlib.Core.Logic.{◌⊎◌, inl, inr}

pub data DbError : Type 0 where
  not_found duplicate corrupt too_large no_id bad_filter unauthorized forbidden : DbError
  hook_cycle hook_depth exists_coll other : DbError

pub data Result {ℓ} (A : Type ℓ) : Type ℓ where
  ok : A → Result A
  err : DbError → Result A

infixl 5 ◌>>=◌
abbrev pub ◌>>=◌ {ℓ κ} : {A : Type ℓ} {B : Type κ} → Result A → (A → Result B) → Result B
ok a >>= f = f a
err e >>= f = err e

pub Result-cases {ℓ} :
    {A : Type ℓ} (r : Result A) → ((e : DbError) × (r ≡ err e)) ⊎ ((a : A) × (r ≡ ok a))
Result-cases (ok a) = inr (a, refl)
Result-cases (err e) = inl (e, refl)
