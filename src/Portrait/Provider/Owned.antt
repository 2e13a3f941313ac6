-- ===== src/Portrait/Provider/Owned.antt =====
-- UpdatePortraitSpec and CleanupPortrait of dynamic.go against a server that holds the portrait of
-- the name, or none.
use kapacity.Common.{
  Bool, true, false, String, List, [], ◌∷◌, not_found, ◌⊎◌, Option, none, some, Go, ok, err, panic,
  ◌≡◌, refl, sym, subst, ◌∙◌, wrap_err,
}
use kapacity.Common.Prog.{pure_go}
use kapacity.Common.Time.{Time, is_zero_ptr}
use kapacity.Common.World.{World, Reads, Writes, Keeps, if-Keeps, on_found-Keeps}
use kapacity.Api.Meta.{NamespacedName}
use kapacity.Api.Algorithm.{PortraitSpec}
use kapacity.Api.HorizontalPortrait.{HorizontalPortrait, HorizontalPortraitSpec}
use kapacity.Api.Ihpa.{Ihpa}
use kapacity.Portrait.Table.{name_eq}
use kapacity.Portrait.Provider.{
  Call, Reply, get_hp, create_hp, patch_hp, delete_hp, new_portrait, with_spec, portrait_key,
  apply_spec, create_portrait, update_to, update_portrait_spec,
}

abbrev pub Server : Type 0
Server = Option HorizontalPortrait

-- A delete takes an object without finalizers away. One that has any stays until they are taken out,
-- with a deletion timestamp.
abbrev pub EndsBy : HorizontalPortrait → (finalizers : List String) → Server → Type 0
EndsBy o [] t = t ≡ none
EndsBy o (f ∷ fs) t =
    (time : Time) × (is_zero_ptr (some time) ≡ false)
    × (t ≡ some (record o { meta = record o.meta { deletion_timestamp = some time } }))

abbrev pub Ends : Server → Server → Type 0
Ends none t = t ≡ none
Ends (some o) t = EndsBy o o.meta.finalizers t

abbrev pub Deletes : Server → Go (Unit {0}) → Server → Type 0
Deletes s (ok u) t = Ends s t
Deletes s (err not_found) t = t ≡ none
Deletes s panic t = ⊥
Deletes s _ t = (t ≡ s) ⊎ Ends s t

abbrev pub Moves : Server → (c : Call) → Reply c → Server → Type 0
Moves s (get_hp n) r t = (t ≡ s) × Reads s r
Moves s (create_hp o) r t = Writes s (some o) r t
Moves s (patch_hp o p) r t = Writes s (some p) r t
Moves s (delete_hp o) r t = Deletes s r t

-- The calls of an update: all of the portrait keeps what it was but for the spec.
abbrev pub Updates : NamespacedName → HorizontalPortraitSpec → Server → Call → Type 0
Updates n spec s (get_hp m) = m ≡ n
Updates n spec s (create_hp o) = (o ≡ new_portrait n spec) × (s ≡ none)
Updates n spec s (patch_hp o p) = (s ≡ some o) × (p ≡ with_spec o spec)
Updates n spec s (delete_hp o) = ⊥

abbrev pub updating : NamespacedName → HorizontalPortraitSpec → World Call Reply Server
updating n spec = record { moves = Moves; permits = Updates n spec; crashes = λ s. ⊥ }

abbrev pub OnlyReads : Server → Call → Type 0
OnlyReads s (get_hp m) = Unit
OnlyReads s _ = ⊥

abbrev pub resting : World Call Reply Server
resting = record { moves = Moves; permits = OnlyReads; crashes = λ s. ⊥ }

module _ (to_lower : String → String)
    (same_spec : HorizontalPortraitSpec → HorizontalPortraitSpec → Bool)
    (same_spec_self : (x : HorizontalPortraitSpec) → same_spec x x ≡ true) where
  abbrev HasSpec : HorizontalPortraitSpec → Server → Type 0
  HasSpec spec none = ⊥
  HasSpec spec (some o) = same_spec o.spec spec ≡ true

  rest_apply :
      (n : NamespacedName) (spec : HorizontalPortraitSpec) (o : HorizontalPortrait) (s q : Server)
      → same_spec o.spec spec ≡ true
      → q ≡ s
      → Keeps resting (λ p v. p ≡ s) q (apply_spec to_lower same_spec n spec o)
  unfolding apply_spec
  rest_apply n spec o s q h e = rw h e

  rests :
      (n : NamespacedName) (spec : HorizontalPortraitSpec) (o : HorizontalPortrait)
      → same_spec o.spec spec ≡ true
      → Keeps resting (λ q r. q ≡ some o) (some o) (update_to to_lower same_spec n spec)
  unfolding update_to
  rests n spec o h = (
    tt,
    λ r q m.
        on_found-Keeps resting (λ p v. p ≡ some o) q r _ _ _
          (λ e. cc (subst (Reads (some o)) e m.1)) (λ e d. m.0)
          (λ i e.
            rest_apply n spec i (some o) q (subst (HasSpec spec) (subst (Reads (some o)) e m.1) h)
              m.0)
          (λ e. subst (Reads (some o)) e m.1),
  )

  -- What an update without an error promises.
  abbrev pub Owned : NamespacedName → HorizontalPortraitSpec → Server → Go (Unit {0}) → Type 0
  Owned n spec q (ok u) =
      (o : HorizontalPortrait) × (q ≡ some o)
      × (same_spec o.spec spec ≡ true)
      × Keeps resting (λ p r. p ≡ q) q (update_to to_lower same_spec n spec)
  Owned n spec q _ = Unit

  owned :
      (n : NamespacedName) (spec : HorizontalPortraitSpec) (o : HorizontalPortrait) (q : Server)
      → same_spec o.spec spec ≡ true
      → q ≡ some o
      → Owned n spec q (ok tt)
  owned n spec o q h e = (
    o,
    e,
    h,
    subst (λ c. Keeps resting (λ p r. p ≡ c) c (update_to to_lower same_spec n spec)) (sym e)
        (rests n spec o h),
  )

  written :
      (n : NamespacedName) (spec : HorizontalPortraitSpec) (o : HorizontalPortrait) (old q : Server)
      (format : String) (args : List String) (r : Go (Unit {0}))
      → same_spec o.spec spec ≡ true
      → Writes old (some o) r q
      → Keeps (updating n spec) (Owned n spec) q (pure_go (wrap_err format args r))
  written n spec o old q format args (ok u) h m = owned n spec o q h m
  written n spec o old q format args (err e) h m = tt
  written n spec o old q format args panic h m = m

  create_portrait-Owned :
      (n : NamespacedName) (spec : HorizontalPortraitSpec) (q : Server)
      → q ≡ none
      → Keeps (updating n spec) (Owned n spec) q (create_portrait to_lower same_spec n spec)
  unfolding create_portrait
  create_portrait-Owned n spec q e =
      ((refl, e), λ r p m. written n spec (new_portrait n spec) q p _ _ r (same_spec_self spec) m)

  apply_spec-Owned :
      (n : NamespacedName) (spec : HorizontalPortraitSpec) (o : HorizontalPortrait) (q : Server)
      → q ≡ some o
      → Keeps (updating n spec) (Owned n spec) q (apply_spec to_lower same_spec n spec o)
  unfolding apply_spec
  apply_spec-Owned n spec o q e =
      if-Keeps (updating n spec) (Owned n spec) q (same_spec o.spec spec) _ _
        (λ same. owned n spec o q same e)
        (λ changed.
          ((e, refl), λ r p m. written n spec (with_spec o spec) q p _ _ r (same_spec_self spec) m))

  update_to-Owned :
      (n : NamespacedName) (spec : HorizontalPortraitSpec) (s : Server)
      → Keeps (updating n spec) (Owned n spec) s (update_to to_lower same_spec n spec)
  unfolding update_to
  update_to-Owned n spec s = (
    refl,
    λ r q m.
        on_found-Keeps (updating n spec) (Owned n spec) q r _ _ _
          (λ e. create_portrait-Owned n spec q (m.0 ∙ subst (Reads s) e m.1)) (λ e d. tt)
          (λ o e. apply_spec-Owned n spec o q (m.0 ∙ subst (Reads s) e m.1))
          (λ e. subst (Reads s) e m.1),
  )

  -- The spec that an IHPA wants of a portrait.
  abbrev pub wanted : Ihpa → PortraitSpec → HorizontalPortraitSpec
  wanted ihpa spec = record { scale_target_ref = ihpa.spec.scale_target_ref; portrait = spec }

  -- UpdatePortraitSpec reads the portrait of the IHPA's name and the type, creates it only where there
  -- is none, and otherwise changes the spec of the one that was read and nothing else of it. If it
  -- returns no error, the portrait has the target of the IHPA and the configured spec, and a second
  -- update makes no change. The server is relied on to store what it is sent, and the semantic
  -- equality of specs to be reflexive.
  pub update_portrait_spec-Owned :
      (ihpa : Ihpa) (spec : PortraitSpec) (s : Server)
      → Keeps
          (updating (portrait_key to_lower ihpa spec.portrait_type) (wanted ihpa spec))
          (Owned (portrait_key to_lower ihpa spec.portrait_type) (wanted ihpa spec))
          s
          (update_portrait_spec to_lower same_spec ihpa spec)
  unfolding update_portrait_spec
  update_portrait_spec-Owned ihpa spec s =
      update_to-Owned (portrait_key to_lower ihpa spec.portrait_type) (wanted ihpa spec) s
