-- ===== src/Kube/Errors.antt =====
-- The errors of client calls. `errors.IsNotFound` and `errors.IsConflict` tell the first two apart;
-- every other error, those that the operator makes with `fmt.Errorf` included, is `other`. Reading
-- through a nil pointer ends the call as `panic`.
use dbaas_operator.Prelude.{String, Bool, true, false, ◌≡◌, refl, ◌⊎◌, inl, inr}

pub data Error : Type 0 where
  not_found conflict other : String → Error
  panic : Error

-- `err.Error()`
abbrev pub message : Error → String
message (not_found m) = m
message (conflict m) = m
message (other m) = m
message panic = "invalid memory address or nil pointer dereference"

abbrev pub is_not_found : Error → Bool
is_not_found (not_found _) = true
is_not_found _ = false

abbrev pub is_conflict : Error → Bool
is_conflict (conflict _) = true
is_conflict _ = false

-- `(value, err)` of a call whose value is read only if `err` is nil.
pub data Result {ℓ} (A : Type ℓ) : Type ℓ where
  ok : A → Result A
  err : Error → Result A

infixl 5 ◌>>=◌
abbrev pub ◌>>=◌ {ℓ κ} : {A : Type ℓ} {B : Type κ} → Result A → (A → Result B) → Result B
ok a >>= f = f a
err e >>= f = err e

pub Result-cases {ℓ} :
    {A : Type ℓ} (r : Result A) → ((a : A) × (r ≡ ok a)) ⊎ ((e : Error) × (r ≡ err e))
Result-cases (ok a) = inl (a, refl)
Result-cases (err e) = inr (e, refl)
