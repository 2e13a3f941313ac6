-- ===== src/Api/Meta/Settled.antt =====
-- SetConditionInList when it is called twice.
use kapacity.Common.{String, List, [], ◌∷◌, ◌==◌, string_eq, ◌≡◌, refl, ap, Bool-cases, inl, inr}
use kapacity.Common.Int.{ℤ}
use kapacity.Common.Time.{Time}
use kapacity.Common.Dict.{str_iff_self}
use kapacity.Api.Meta.{Condition, update_condition, set_condition_in_list}

-- A condition that is set again to the same values leaves the list of conditions as it was, with
-- the time of the condition's last transition, whatever the time of the second call.
pub set_condition_in_list_twice :
    (now later : Time) (cs : List Condition) (type status : String) (generation : ℤ)
    → (reason message : String)
    → set_condition_in_list later
        (set_condition_in_list now cs type status generation reason message)
        type
        status
        generation
        reason
        message
      ≡ set_condition_in_list now cs type status generation reason message
unfolding set_condition_in_list update_condition
set_condition_in_list_twice now later [] type status generation reason message =
    rw (str_iff_self type, str_iff_self status) refl
set_condition_in_list_twice now later (c ∷ cs) type status generation reason message =
    elim (Bool-cases (c.type == type)) [
      | inl e ↦ rw (e, e, str_iff_self status) refl
      | inr e ↦
          rw (e, e)
            (ap (λ l. c ∷ l)
              (set_condition_in_list_twice now later cs type status generation reason message))
    ]
