-- ===== src/Common/World.antt =====
-- Programs whose calls change a world outside: what each call may do to its state, what is allowed in
-- each state, and what holds of the state in which the program ends.
use mathlib.Core.Path.{◌≡◌, refl}
use mathlib.Core.Bool.{Bool, true, false}
use mathlib.Core.Option.{Option, none, some}
use mathlib.Core.Logic.{◌⊎◌}
use kapacity.Common.Tests.{if◌then◌else◌}
use kapacity.Common.Outcome.{Go, ok, err, panic, Error, not_found, foreign, errorf, wrapf}
use kapacity.Common.Prog.{Prog, done, call, crash, ◌>>=◌, on_go, on_found}

pub record World (Call : Type 0) (Reply : Call → Type 0) (S : Type 0) : Type 1 where
  pub moves : S → (c : Call) → Reply c → S → Type 0
  pub permits : S → Call → Type 0
  pub crashes : S → Type 0

-- A server that holds one object or none. A read tells the state, if it succeeds or finds nothing.
abbrev pub Reads : {O : Type 0} → Option O → Go O → Type 0
Reads s (ok j) = s ≡ some j
Reads s (err not_found) = s ≡ none
Reads s panic = ⊥
Reads s _ = Unit

-- A write that succeeds has taken effect; one that fails may have.
abbrev pub Writes : {O : Type 0} → (old new : Option O) → Go (Unit {0}) → Option O → Type 0
Writes old new (ok u) t = t ≡ new
Writes old new (err not_found) t = t ≡ none
Writes old new panic t = ⊥
Writes old new _ t = (t ≡ old) ⊎ (t ≡ new)

module _ {Call : Type 0} {Reply : Call → Type 0} {S : Type 0} where
  abbrev pub Keeps :
      {A : Type 0} → World Call Reply S → (S → A → Type 0) → S → Prog Call Reply A → Type 0
  Keeps w post s (done a) = post s a
  Keeps w post s (call c k) =
      w.permits s c × ((r : Reply c) (next : S) → w.moves s c r next → Keeps w post next (k r))
  Keeps w post s crash = w.crashes s

  pub Keeps->>= :
      {A B : Type 0}
      → (w : World Call Reply S) (mid : S → A → Type 0) (post : S → B → Type 0) (s : S)
        (m : Prog Call Reply A) (f : A → Prog Call Reply B)
      → Keeps w mid s m
      → ((t : S) (a : A) → mid t a → Keeps w post t (f a))
      → Keeps w post s (m >>= f)
  Keeps->>= w mid post s (done a) f h k = k s a h
  Keeps->>= w mid post s (call c g) f h k =
      (h.0, λ r t e. Keeps->>= w mid post t (g r) f (h.1 r t e) k)
  Keeps->>= w mid post s crash f h k = h

  pub Keeps-weaken :
      {A : Type 0}
      → (w : World Call Reply S) (mid post : S → A → Type 0) (s : S) (m : Prog Call Reply A)
      → ((t : S) (a : A) → mid t a → post t a)
      → Keeps w mid s m
      → Keeps w post s m
  Keeps-weaken w mid post s (done a) k h = k s a h
  Keeps-weaken w mid post s (call c g) k h =
      (h.0, λ r t e. Keeps-weaken w mid post t (g r) k (h.1 r t e))
  Keeps-weaken w mid post s crash k h = h

  module _ {A : Type 0} (w : World Call Reply S) (post : S → A → Type 0) (s : S) where
    pub if-Keeps :
        (b : Bool) (m n : Prog Call Reply A)
        → (b ≡ true → Keeps w post s m)
        → (b ≡ false → Keeps w post s n)
        → Keeps w post s (if b then m else n)
    if-Keeps true m n h k = h refl
    if-Keeps false m n h k = k refl

    pub on_go-Keeps :
        {B : Type 0} (r : Go B) (failure : Error → Prog Call Reply A) (next : B → Prog Call Reply A)
        → ((e : Error) → r ≡ err e → Keeps w post s (failure e))
        → ((b : B) → r ≡ ok b → Keeps w post s (next b))
        → (r ≡ panic → w.crashes s)
        → Keeps w post s (on_go r failure next)
    on_go-Keeps (ok b) failure next f n c = n b refl
    on_go-Keeps (err e) failure next f n c = f e refl
    on_go-Keeps panic failure next f n c = c refl

    pub on_found-Keeps :
        {B : Type 0} (r : Go B) (missing : Prog Call Reply A) (failure : Error → Prog Call Reply A)
        → (next : B → Prog Call Reply A) → (r ≡ err not_found → Keeps w post s missing)
        → ((e : Error) → r ≡ err e → Keeps w post s (failure e))
        → ((b : B) → r ≡ ok b → Keeps w post s (next b))
        → (r ≡ panic → w.crashes s)
        → Keeps w post s (on_found r missing failure next)
    on_found-Keeps (ok b) missing failure next m f n c = n b refl
    on_found-Keeps (err not_found) missing failure next m f n c = m refl
    on_found-Keeps (err (foreign x)) missing failure next m f n c = f (foreign x) refl
    on_found-Keeps (err (errorf x l)) missing failure next m f n c = f (errorf x l) refl
    on_found-Keeps (err (wrapf x l e)) missing failure next m f n c = f (wrapf x l e) refl
    on_found-Keeps panic missing failure next m f n c = c refl
