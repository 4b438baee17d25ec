-- ===== src/Types/Error.antt =====
-- types/errors.go: the sentinel errors. An error of another package, or one made by `fmt.Errorf`
-- that wraps no sentinel, is `other` with a word for it.
use olareg.Shared.{String, ◌≡◌, ◌⊎◌, inl, inr, refl}

pub data Error : Type 0 where
  blob_exists not_found parsing_failed read_only repo_not_allowed : Error
  other : String → Error

-- A Go function's `(A, error)`.
pub data Result {ℓ} (A : Type ℓ) : Type ℓ where
  ok : A → Result A
  err : Error → Result A

infixl 5 ◌>>=◌
abbrev pub ◌>>=◌ {ℓ κ} : {A : Type ℓ} {B : Type κ} → Result A → (A → Result B) → Result B
ok a >>= f = f a
err e >>= f = err e

pub Result-cases {ℓ} :
    {A : Type ℓ} (r : Result A) → ((x : Error) × (r ≡ err x)) ⊎ ((a : A) × (r ≡ ok a))
Result-cases (err x) = inl (x, refl)
Result-cases (ok a) = inr (a, refl)
