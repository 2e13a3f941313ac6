-- ===== src/Ihpa/Portrait/Best.antt =====
-- The portrait value that the IHPA controller chooses among those of the configured providers.
use kapacity.Common.{
  Bool, true, false, ◌&&◌, ◌||◌, List, [], ◌∷◌, Option, none, some, All, ◌≡◌, ◌⊎◌, inl, inr, refl,
  arith, if◌then◌else◌,
}
use kapacity.Common.Int.{ℤ, ltb_ℤ, eqb_ℤ}
use kapacity.Common.Time.{Time}
use kapacity.Api.Ihpa.{HorizontalPortraitProvider, HorizontalPortraitValue}
use kapacity.Ihpa.Portrait.{Candidate, unexpired, outranks, choose, fetched}

-- The order of candidates is transitive.
above :
    (p q r x y z : ℤ)
    → (ltb_ℤ q p || (eqb_ℤ p q && ltb_ℤ y x)) ≡ true
    → (ltb_ℤ q r || (eqb_ℤ r q && ltb_ℤ y z)) ≡ false
    → (ltb_ℤ p r || (eqb_ℤ r p && ltb_ℤ x z)) ≡ false
above p q r x y z h k = ground arith

outranks_above :
    (b a c : Candidate) → outranks c a ≡ true → outranks b a ≡ false → outranks b c ≡ false
outranks_above b a c h k =
    above c.priority a.priority b.priority c.value.replicas a.value.replicas b.value.replicas h k

-- One of the candidates.
abbrev pub Among : Candidate → List Candidate → Type 0
Among a [] = ⊥
Among a (b ∷ bs) = (a ≡ b) ⊎ Among a bs

-- No unexpired value of those offered outranks the best one, which is one of them and unexpired; or
-- all are expired.
abbrev pub IsBest : Time → List Candidate → Option Candidate → Type 0
IsBest now offers none = All (λ b. unexpired now b.value ≡ false) offers
IsBest now offers (some a) =
    (unexpired now a.value ≡ true)
    × Among a offers
    × All (λ b. (unexpired now b.value ≡ false) ⊎ (outranks b a ≡ false)) offers

-- What is no better than a candidate is no better than one that outranks it.
raise :
    (now : Time) (a c : Candidate) (offers : List Candidate)
    → outranks c a ≡ true
    → All (λ b. (unexpired now b.value ≡ false) ⊎ (outranks b a ≡ false)) offers
    → All (λ b. (unexpired now b.value ≡ false) ⊎ (outranks b c ≡ false)) offers
raise now a c [] h k = tt
raise now a c (b ∷ offers) h (k, ks) = (one k, raise now a c offers h ks)
  where
    one :
        (unexpired now b.value ≡ false) ⊎ (outranks b a ≡ false)
        → (unexpired now b.value ≡ false) ⊎ (outranks b c ≡ false)
    one (inl e) = inl e
    one (inr e) = inr (outranks_above b a c h e)

no_rival :
    (now : Time) (c : Candidate) (offers : List Candidate)
    → All (λ b. unexpired now b.value ≡ false) offers
    → All (λ b. (unexpired now b.value ≡ false) ⊎ (outranks b c ≡ false)) offers
no_rival now c [] h = tt
no_rival now c (b ∷ offers) (h, hs) = (inl h, no_rival now c offers hs)

not_above : (c : Candidate) → outranks c c ≡ false
not_above c = ground arith

take_first :
    (now : Time) (c : Candidate) (offers : List Candidate)
    → (u : Bool) → unexpired now c.value ≡ u
    → IsBest now offers none
    → IsBest now (c ∷ offers) (if u && true then some c else none)
take_first now c offers true e h = (e, inl refl, (inr (not_above c), no_rival now c offers h))
take_first now c offers false e h = (e, h)

take_next :
    (now : Time) (a c : Candidate) (offers : List Candidate)
    → (u o : Bool) → unexpired now c.value ≡ u
    → outranks c a ≡ o
    → IsBest now offers (some a)
    → IsBest now (c ∷ offers) (if u && o then some c else some a)
take_next now a c offers true true e f (live, among, best) =
    (e, inl refl, (inr (not_above c), raise now a c offers f best))
take_next now a c offers true false e f (live, among, best) = (live, inr among, (inr f, best))
take_next now a c offers false true e f (live, among, best) = (live, inr among, (inl e, best))
take_next now a c offers false false e f (live, among, best) = (live, inr among, (inl e, best))

choose-IsBest :
    (now : Time) (c : Candidate) (offers : List Candidate) (best : Option Candidate)
    → IsBest now offers best
    → IsBest now (c ∷ offers) (choose now c best)
unfolding choose
choose-IsBest now c offers none h = take_first now c offers (unexpired now c.value) refl h
choose-IsBest now c offers (some a) h =
    take_next now a c offers (unexpired now c.value) (outranks c a) refl refl h

-- The values that the providers give, with their priorities, the last one first.
abbrev pub offer :
    HorizontalPortraitProvider → Option HorizontalPortraitValue → List Candidate → List Candidate
offer cfg none offers = offers
offer cfg (some v) offers = record { value = v; priority = cfg.priority } ∷ offers

abbrev pub offered :
    (HorizontalPortraitProvider → Option HorizontalPortraitValue)
    → List HorizontalPortraitProvider
    → List Candidate
    → List Candidate
offered gives [] offers = offers
offered gives (cfg ∷ cfgs) offers = offered gives cfgs (offer cfg (gives cfg) offers)

pub fetched-IsBest :
    (now : Time) (cfg : HorizontalPortraitProvider) (v : Option HorizontalPortraitValue)
    → (offers : List Candidate) (best : Option Candidate) → IsBest now offers best
    → IsBest now (offer cfg v offers) (fetched now cfg v best)
unfolding fetched
fetched-IsBest now cfg none offers best h = h
fetched-IsBest now cfg (some v) offers best h =
    choose-IsBest now (record { value = v; priority = cfg.priority }) offers best h
