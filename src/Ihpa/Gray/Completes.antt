-- ===== src/Ihpa/Gray/Completes.antt =====
-- Rounds of generateIHPAReplicaData on one object, each of which gets what the last one left.
use kapacity.Common.{
  ℕ, ◌+◌, ◌*◌, ◌≤◌, ◌<◌, ◌^◌, min, Bool, true, false, List, [], ◌∷◌, length, Go, ok, ◌>>=◌,
  if◌then◌else◌, ltb, ◌≡◌, refl, subst, Bool-cases, inl, inr, arith,
}
use kapacity.Common.Int.{ℤ, pos, ◌-ℤ◌, ◌*ℤ◌, ltb_ℤ, ◌≤ℤ◌, eqb_ℤ}
use kapacity.Common.Time.{Time, second}
use kapacity.Api.Ihpa.{Ihpa, HorizontalPortraitValue, GrayStrategy}
use kapacity.Ihpa.Gray.{
  Generated, all_online, generate_ihpa_replica_data, remaining, wait_seconds, with_current,
}
use kapacity.Ihpa.Gray.Progress.{
  InChange, IsDue, last_lem, step_lem, bind_ok, with_current-InChange,
}

-- The rounds at some instants, the first at once.
abbrev pub generate_rounds : Time → List Time → Ihpa → Go Generated
generate_rounds now [] ihpa = generate_ihpa_replica_data now ihpa
generate_rounds now (t ∷ times) ihpa = do
  generated ← generate_ihpa_replica_data now ihpa
  generate_rounds t times generated.ihpa

-- The waits of a strategy have passed between two instants.
pub record IsApart (g : GrayStrategy) (previous now : Time) : Type 0 where
  pub later : previous ≤ℤ now
  pub changed : g.change_interval_seconds *ℤ pos second ≤ℤ now -ℤ previous
  pub observed : g.observation_seconds *ℤ pos second ≤ℤ now -ℤ previous

abbrev pub AllApart : GrayStrategy → Time → List Time → Type 0
AllApart g previous [] = Unit
AllApart g previous (t ∷ times) = IsApart g previous t × AllApart g t times

over : (w d : ℤ) → w ≤ℤ d → (if ltb_ℤ (w -ℤ d) (pos 0) then pos 0 else w -ℤ d) ≡ pos 0
over w d h = ground arith

longer : (a now previous last : ℤ) → a ≤ℤ now -ℤ previous → last ≤ℤ previous → a ≤ℤ now -ℤ last
longer a now previous last h k = ground arith

le_trans : (a b d : ℤ) → a ≤ℤ b → b ≤ℤ d → a ≤ℤ d
le_trans a b d h k = ground arith

le_refl : (a : ℤ) → a ≤ℤ a
le_refl a = ground arith

passed : (now previous last : ℤ) → previous ≤ℤ now → last ≤ℤ previous → pos 0 ≤ℤ now -ℤ last
passed now previous last h k = ground arith

wait_bound :
    (at_start at_end : Bool) (observation interval x : ℤ)
    → pos 0 ≤ℤ x
    → observation *ℤ pos second ≤ℤ x
    → interval *ℤ pos second ≤ℤ x
    → (if at_start then pos 0 else if at_end then observation else interval) *ℤ pos second ≤ℤ x
wait_bound true e o i x z a b = z
wait_bound false true o i x z a b = a
wait_bound false false o i x z a b = b

due_lem :
    (g : GrayStrategy) (percent : ℕ) (last previous now : Time)
    → last ≤ℤ previous
    → IsApart g previous now
    → IsDue g percent last now
unfolding remaining wait_seconds
due_lem g percent last previous now h a =
    over (wait_seconds g (pos percent) *ℤ pos second) (now -ℤ last) (
      wait_bound (eqb_ℤ (pos percent) (pos 0)) (eqb_ℤ (pos percent) (pos 100)) g.observation_seconds
        g.change_interval_seconds (now -ℤ last) (passed now previous last a.later h)
        (longer (g.observation_seconds *ℤ pos second) now previous last a.observed h)
        (longer (g.change_interval_seconds *ℤ pos second) now previous last a.changed h))

-- All replicas of the new value are online, and nothing is waited for.
abbrev pub IsComplete : HorizontalPortraitValue → Go Generated → Type 0
IsComplete c r =
    (out : Generated) × (r ≡ ok out)
    × (out.replicas ≡ all_online c.replicas)
    × (out.remain_time ≡ pos 0)

module _ (g : GrayStrategy) (p c : HorizontalPortraitValue) (ch : ℕ) (fits : ch < 2 ^ 30)
    (changes : g.change_percent ≡ pos ch) where
  after_round :
      (now : Time) (ihpa : Ihpa) (t : Time) (times : List Time) (out : Generated)
      → generate_ihpa_replica_data now ihpa ≡ ok out
      → IsComplete c (generate_rounds t times out.ihpa)
      → IsComplete c (generate_rounds now (t ∷ times) ihpa)
  after_round now ihpa t times out e (r, d, a, b) = (r, bind_ok _ out _ _ e d, a, b)

  at_hundred :
      (percent : ℕ) (last : Time) (ihpa : Ihpa)
      → percent ≡ 100
      → InChange g p c percent last ihpa
      → InChange g p c 100 last ihpa
  at_hundred percent last ihpa e h = subst (λ n. InChange g p c n last ihpa) e h

  at_end :
      (times : List Time) (now last previous : Time) (ihpa : Ihpa)
      → InChange g p c 100 last ihpa
      → last ≤ℤ previous
      → AllApart g previous (now ∷ times)
      → IsComplete c (generate_rounds now times ihpa)
  at_end [] now last previous ihpa h le (a, rest) =
      (_, last_lem g p c last ihpa now h (due_lem g 100 last previous now le a), refl, refl)
  at_end (t ∷ times) now last previous ihpa h le (a, rest) =
      after_round now ihpa t times _
        (last_lem g p c last ihpa now h (due_lem g 100 last previous now le a))
        (at_end times t last now (with_current ihpa c) (with_current-InChange h)
          (le_trans last previous now le a.later) rest)

  -- A gray change that is under way: the mode is not Preview, the strategy is the one for a change from
  -- the previous to the current value, both of which are in the status with the percentage reached,
  -- and the current value is within the bounds of the spec. The strategy changes at least one
  -- percent at a time (and less than 2^30), and the rounds are apart by its waits. After as many
  -- rounds as the steps that are left of the way to 100 percent, and one more, the change is
  -- complete: the replicas generated are those of the new value, all online, and there is no
  -- further wait.
  pub generate_rounds-IsComplete :
      1 ≤ ch
      → (times : List Time) (now last previous : Time) (percent : ℕ) (ihpa : Ihpa)
      → InChange g p c percent last ihpa
      → percent ≤ 100
      → last ≤ℤ previous
      → AllApart g previous (now ∷ times)
      → 100 ≤ percent + length times * ch
      → IsComplete c (generate_rounds now times ihpa)
  generate_rounds-IsComplete moves [] now last previous percent ihpa h k le a enough =
      at_end [] now last previous ihpa (at_hundred percent last ihpa (omega arith) h) le a
  generate_rounds-IsComplete moves (t ∷ times) now last previous percent ihpa h k le a enough =
      elim (Bool-cases (ltb percent 100)) [
        | inl e ↦
            let (out, d, i) =
              step_lem g p c last ihpa now percent ch h (ground arith) fits changes
                (due_lem g percent last previous now le a.0) in
            after_round now ihpa t times out d (
              generate_rounds-IsComplete moves times t now now (min 100 (percent + ch)) out.ihpa i
                (omega arith) (le_refl now) a.1 (omega arith))
        | inr e ↦
            at_end (t ∷ times) now last previous ihpa
              (at_hundred percent last ihpa (ground arith) h) le a
      ]
