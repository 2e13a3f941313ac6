-- ===== src/Common/Outcome.antt =====
-- How a Go function ends: with a value, with a non-nil error, or by a panic.
use Prim.Native.String.{String}
use mathlib.Core.List.{List}

-- `errorf` is `fmt.Errorf` with its format and its string arguments, `wrapf` one that wraps an
-- error. `not_found` is what `apierrors.IsNotFound` recognises; `foreign` is any other error that
-- a call outside of this repository returns.
pub data Error : Type 0 where
  not_found : Error
  foreign : String → Error
  errorf : String → List String → Error
  wrapf : String → List String → Error → Error

pub data Go {ℓ} (A : Type ℓ) : Type ℓ where
  ok : A → Go A
  err : Error → Go A
  panic : Go A

infixl 5 ◌>>=◌ ◌>>◌
abbrev pub ◌>>=◌ {ℓ κ} : {A : Type ℓ} {B : Type κ} → Go A → (A → Go B) → Go B
ok a >>= f = f a
err e >>= f = err e
panic >>= f = panic

abbrev pub ◌>>◌ {ℓ} : {B : Type ℓ} → Go (Unit {0}) → Go B → Go B
m >> k = m >>= λ _. k

-- `if err != nil { return fmt.Errorf(format + ": %v", args, err) }`
abbrev pub wrap_err {ℓ} : {A : Type ℓ} → String → List String → Go A → Go A
wrap_err f args (ok a) = ok a
wrap_err f args (err e) = err (wrapf f args e)
wrap_err f args panic = panic
