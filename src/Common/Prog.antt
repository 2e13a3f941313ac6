-- ===== src/Common/Prog.antt =====
-- Code that calls other systems (the API server, the clock, a portrait provider): a program is a
-- tree of its calls, which goes on with any reply. A contract says what replies are relied on and
-- what calls are allowed, and whether the program may panic.
use mathlib.Core.List.{List, [], ◌∷◌}
use kapacity.Common.Lists.{All}
use kapacity.Common.Int.{ℤ, pos}
use kapacity.Common.Tests.{if◌then◌else◌}
use kapacity.Common.Outcome.{Go, ok, err, panic, Error, not_found, foreign, errorf, wrapf}
use mathlib.Core.Path.{◌≡◌, refl}
use mathlib.Core.Bool.{Bool, true, false}

-- What a reconciliation returns: a delay (zero for none), or an error.
pub data Outcome : Type 0 where
  requeue_after : ℤ → Outcome
  failed : Error → Outcome

abbrev pub finished : Outcome
finished = requeue_after (pos 0)

pub data Prog (Call : Type 0) (Reply : Call → Type 0) (A : Type 0) : Type 0 where
  done : A → Prog Call Reply A
  call : (c : Call) → (Reply c → Prog Call Reply A) → Prog Call Reply A
  crash : Prog Call Reply A

pub record Contract (Call : Type 0) (Reply : Call → Type 0) : Type 1 where
  pub relies : (c : Call) → Reply c → Type 0
  pub allows : Call → Type 0
  pub panics : Type 0

module _ {Call : Type 0} {Reply : Call → Type 0} where
  infixl 5 ◌>>=◌ ◌>>◌
  abbrev pub ◌>>=◌ :
      {A B : Type 0} → Prog Call Reply A → (A → Prog Call Reply B) → Prog Call Reply B
  done a >>= f = f a
  call c k >>= f = call c (λ r. k r >>= f)
  crash >>= f = crash

  abbrev pub ◌>>◌ :
      {B : Type 0} → Prog Call Reply (Unit {0}) → Prog Call Reply B → Prog Call Reply B
  m >> k = m >>= λ _. k

  -- One call, with its reply.
  abbrev pub ask : (c : Call) → Prog Call Reply (Reply c)
  ask c = call c (λ r. done r)

  -- A computation without calls; an error stays a value.
  abbrev pub pure_go : {A : Type 0} → Go A → Prog Call Reply (Go A)
  pure_go (ok a) = done (ok a)
  pure_go (err e) = done (err e)
  pure_go panic = crash

  -- The computation that goes on with a value, and returns an error at once.
  abbrev pub then_go : {A B : Type 0} → Go A → (A → Prog Call Reply (Go B)) → Prog Call Reply (Go B)
  then_go (ok a) f = f a
  then_go (err e) f = done (err e)
  then_go panic f = crash

  -- `if err != nil { … }`, and what follows it.
  abbrev pub on_go :
      {A B : Type 0}
      → Go A
      → (Error → Prog Call Reply B)
      → (A → Prog Call Reply B)
      → Prog Call Reply B
  on_go (ok a) failure next = next a
  on_go (err e) failure next = failure e
  on_go panic failure next = crash

  -- The same for a read, after which apierrors.IsNotFound is tested first.
  abbrev pub on_found :
      {A B : Type 0}
      → Go A
      → Prog Call Reply B
      → (Error → Prog Call Reply B)
      → (A → Prog Call Reply B)
      → Prog Call Reply B
  on_found (ok a) missing failure next = next a
  on_found (err not_found) missing failure next = missing
  on_found (err e) missing failure next = failure e
  on_found panic missing failure next = crash

  -- The replies that a world in some state gives, the calls made, and how it ended.
  abbrev pub run :
      {A S : Type 0} → ((c : Call) → S → Reply c × S) → S → Prog Call Reply A → List Call × Go A
  run world s (done a) = ([], ok a)
  run world s crash = ([], panic)
  run world s (call c k) =
      let answer = world c s in let rest = run world answer.1 (k answer.0) in (c ∷ rest.0, rest.1)

  abbrev pub Safe : {A : Type 0} → Contract Call Reply → (A → Type 0) → Prog Call Reply A → Type 0
  Safe t post (done a) = post a
  Safe t post (call c k) = t.allows c × ((r : Reply c) → t.relies c r → Safe t post (k r))
  Safe t post crash = t.panics

  -- What holds of the parts holds of the whole.
  pub Safe->>= :
      {A B : Type 0}
      → (t : Contract Call Reply) (p : A → Type 0) (q : B → Type 0) (m : Prog Call Reply A)
        (f : A → Prog Call Reply B)
      → Safe t p m
      → ((a : A) → p a → Safe t q (f a))
      → Safe t q (m >>= f)
  Safe->>= t p q (done a) f h k = k a h
  Safe->>= t p q (call c g) f h k = (h.0, λ r e. Safe->>= t p q (g r) f (h.1 r e) k)
  Safe->>= t p q crash f h k = h

  pub if-Safe :
      {A : Type 0} (t : Contract Call Reply) (p : A → Type 0) (b : Bool) (m n : Prog Call Reply A)
      → (b ≡ true → Safe t p m)
      → (b ≡ false → Safe t p n)
      → Safe t p (if b then m else n)
  if-Safe t p true m n h k = h refl
  if-Safe t p false m n h k = k refl

  pub on_go-Safe :
      {A B : Type 0} (t : Contract Call Reply) (p : B → Type 0) (r : Go A)
      → (failure : Error → Prog Call Reply B) (next : A → Prog Call Reply B)
      → ((e : Error) → r ≡ err e → Safe t p (failure e))
      → ((a : A) → r ≡ ok a → Safe t p (next a))
      → (r ≡ panic → t.panics)
      → Safe t p (on_go r failure next)
  on_go-Safe t p (ok a) failure next f n c = n a refl
  on_go-Safe t p (err e) failure next f n c = f e refl
  on_go-Safe t p panic failure next f n c = c refl

  pub on_found-Safe :
      {A B : Type 0} (t : Contract Call Reply) (p : B → Type 0) (r : Go A)
      → (missing : Prog Call Reply B) (failure : Error → Prog Call Reply B)
      → (next : A → Prog Call Reply B) → (r ≡ err not_found → Safe t p missing)
      → ((e : Error) → r ≡ err e → Safe t p (failure e))
      → ((a : A) → r ≡ ok a → Safe t p (next a))
      → (r ≡ panic → t.panics)
      → Safe t p (on_found r missing failure next)
  on_found-Safe t p (ok a) missing failure next m f n c = n a refl
  on_found-Safe t p (err not_found) missing failure next m f n c = m refl
  on_found-Safe t p (err (foreign s)) missing failure next m f n c = f (foreign s) refl
  on_found-Safe t p (err (errorf s l)) missing failure next m f n c = f (errorf s l) refl
  on_found-Safe t p (err (wrapf s l e)) missing failure next m f n c = f (wrapf s l e) refl
  on_found-Safe t p panic missing failure next m f n c = c refl

  -- In a world whose replies are those relied on, a safe program makes the allowed calls only.
  pub run-Safe :
      {A S : Type 0}
      → (t : Contract Call Reply) (p : A → Type 0) (m : Prog Call Reply A)
      → (world : (c : Call) → S → Reply c × S) → ((c : Call) (s : S) → t.relies c (world c s).0)
      → Safe t p m
      → (s : S) → All t.allows (run world s m).0
  run-Safe t p (done a) world good h s = tt
  run-Safe t p (call c k) world good h s =
      (h.0, run-Safe t p (k (world c s).0) world good (h.1 (world c s).0 (good c s)) (world c s).1)
  run-Safe t p crash world good h s = tt
