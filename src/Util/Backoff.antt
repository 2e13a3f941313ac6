-- ===== src/Util/Backoff.antt =====
-- ExponentialBackoffWithContext of pkg/util/wait.go, by what each round of the loop observes: whether
-- the context is done before the condition runs, how the condition ends, and whether the context
-- is done before the timer fires. A panic of the condition goes through the crash handler.
use kapacity.Common.{
  Bool, true, false, List, [], ◌∷◌, Option, none, some, All, inl, inr, ◌⊎◌, Go, ok, err, panic, ◌≡◌,
  refl,
}

pub record Round : Type 0 where
  pub done_before : Bool
  pub outcome : Go Bool
  pub done_after : Bool

-- How a round ends the loop, if it does; the error of the context is not returned.
abbrev after_timer : Bool → Option (Go (Unit {0}))
after_timer true = some (ok tt)
after_timer false = none

abbrev after_condition : Go Bool → Bool → Option (Go (Unit {0}))
after_condition (ok true) late = some (ok tt)
after_condition (ok false) late = after_timer late
after_condition (err e) late = some (err e)
after_condition panic late = some panic

unfoldable pub run_round : Round → Option (Go (Unit {0}))
run_round r = elim r.done_before [
  | true ↦ some (ok tt)
  | false ↦ after_condition r.outcome r.done_after
]

abbrev or_continue : Option (Go (Unit {0})) → Option (Go (Unit {0})) → Option (Go (Unit {0}))
or_continue (some o) next = some o
or_continue none next = next

-- The loop, over the rounds that happen: none if it still runs after them.
unfoldable pub exponential_backoff_with_context : List Round → Option (Go (Unit {0}))
exponential_backoff_with_context [] = none
exponential_backoff_with_context (r ∷ rounds) =
    or_continue (run_round r) (exponential_backoff_with_context rounds)

-- A round after which the loop goes on.
abbrev pub Waits : Round → Type 0
Waits r = (r.done_before ≡ false) × (r.outcome ≡ ok false) × (r.done_after ≡ false)

-- What ends the loop with a result: an end without an error is one of the context, or a condition
-- that holds, and an error or a panic is one of the condition, run while the context was live.
abbrev pub EndsWith : Go (Unit {0}) → Round → Type 0
EndsWith (ok u) r = (r.done_before ≡ true) ⊎ ((r.outcome ≡ ok true) ⊎ (r.done_after ≡ true))
EndsWith (err e) r = (r.done_before ≡ false) × (r.outcome ≡ err e)
EndsWith panic r = (r.done_before ≡ false) × (r.outcome ≡ panic)

abbrev pub Stops : List Round → Option (Go (Unit {0})) → Type 0
Stops rounds none = All Waits rounds
Stops [] (some o) = ⊥
Stops (r ∷ rounds) (some o) = EndsWith o r ⊎ (Waits r × Stops rounds (some o))

abbrev EndsOrWaits : Round → Option (Go (Unit {0})) → Type 0
EndsOrWaits r none = Waits r
EndsOrWaits r (some o) = EndsWith o r

run_round-EndsOrWaits : (r : Round) → EndsOrWaits r (run_round r)
unfolding run_round
run_round-EndsOrWaits r = go r.done_before r.outcome r.done_after refl refl refl
  where
    go :
        (b : Bool) (o : Go Bool) (a : Bool)
        → r.done_before ≡ b
        → r.outcome ≡ o
        → r.done_after ≡ a
        → EndsOrWaits r (elim b [ true ↦ some (ok tt) | false ↦ after_condition o a ])
    go true o a e f g = inl e
    go false (ok true) a e f g = inr (inl f)
    go false (ok false) true e f g = inr (inr g)
    go false (ok false) false e f g = (e, f, g)
    go false (err d) a e f g = (e, f)
    go false panic a e f g = (e, f)

continued :
    (r : Round) (rounds : List Round) (here later : Option (Go (Unit {0})))
    → EndsOrWaits r here
    → Stops rounds later
    → Stops (r ∷ rounds) (or_continue here later)
continued r rounds (some o) later h k = inl h
continued r rounds none none h k = (h, k)
continued r rounds none (some o) h k = inr (h, k)

-- The loop runs on only while every round waits: at the first round that does not, it returns. Then
-- either the context is done or the condition holds, and no error is returned, or the condition
-- has failed or panicked, and this is the result.
pub exponential_backoff_with_context-Stops :
    (rounds : List Round) → Stops rounds (exponential_backoff_with_context rounds)
unfolding exponential_backoff_with_context
exponential_backoff_with_context-Stops [] = tt
exponential_backoff_with_context-Stops (r ∷ rounds) =
    continued r rounds (run_round r) (exponential_backoff_with_context rounds)
      (run_round-EndsOrWaits r) (exponential_backoff_with_context-Stops rounds)
