-- ===== src/Common/Gives.antt =====
-- What holds of the value that a Go function returns, if it returns one.
use Prim.Native.String.{String}
use mathlib.Core.Path.{◌≡◌, refl}
use mathlib.Core.List.{List}
use mathlib.Core.Bool.{Bool, true, false}
use kapacity.Common.Tests.{if◌then◌else◌}
use kapacity.Common.Outcome.{Go, ok, err, panic, ◌>>=◌, wrap_err}

module _ {A : Type 0} where
  abbrev pub Gives : (A → Type 0) → Go A → Type 0
  Gives P (ok a) = P a
  Gives P _ = Unit

  pub reply-Gives : (r : Go A) → Gives (λ a. r ≡ ok a) r
  reply-Gives (ok a) = refl
  reply-Gives (err e) = tt
  reply-Gives panic = tt

  pub Gives-wrap_err :
      (P : A → Type 0) (format : String) (args : List String) (r : Go A)
      → Gives P r
      → Gives P (wrap_err format args r)
  Gives-wrap_err P format args (ok a) h = h
  Gives-wrap_err P format args (err e) h = tt
  Gives-wrap_err P format args panic h = tt

  pub any-Gives : (r : Go A) → Gives (λ a. Unit) r
  any-Gives (ok a) = tt
  any-Gives (err e) = tt
  any-Gives panic = tt

  pub if-Gives :
      (P : A → Type 0) (b : Bool) (r t : Go A)
      → (b ≡ true → Gives P r)
      → (b ≡ false → Gives P t)
      → Gives P (if b then r else t)
  if-Gives P true r t h k = h refl
  if-Gives P false r t h k = k refl

pub Gives->>= :
    {A B : Type 0} (P : A → Type 0) (Q : B → Type 0) (r : Go A) (f : A → Go B)
    → Gives P r
    → ((a : A) → P a → Gives Q (f a))
    → Gives Q (r >>= f)
Gives->>= P Q (ok a) f h k = k a h
Gives->>= P Q (err e) f h k = tt
Gives->>= P Q panic f h k = tt
