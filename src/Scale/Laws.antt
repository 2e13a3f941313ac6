-- ===== src/Scale/Laws.antt =====
-- The search for the scale of a target among the resource mappings.
use kapacity.Common.{
  String, List, [], ◌∷◌, ◌++◌, All, Option, none, Go, ok, err, panic, Error, ◌≡◌, refl, ap,
}
use kapacity.Scale.{
  Scale, GroupResource, ScaleClient, try_mappings, scale_for_resource_mappings, remember,
}

-- The client returns an error for a mapping.
abbrev pub Fails : ScaleClient → (namespace name : String) → GroupResource → Type 0
Fails client namespace name m = (e : Error) × (client.get namespace m name ≡ err e)

-- What a result says of the mappings, in their order.
abbrev pub IsFirst :
    ScaleClient
    → (namespace name : String) → List GroupResource
    → Go (Scale × GroupResource)
    → Type 0
IsFirst client namespace name ms (ok (s, m)) =
    (xs : List GroupResource) × (ys : List GroupResource) × (ms ≡ xs ++ m ∷ ys)
    × All (Fails client namespace name) xs
    × (client.get namespace m name ≡ ok s)
IsFirst client namespace name ms (err e) = All (Fails client namespace name) ms
IsFirst client namespace name ms panic = (m : GroupResource) × (client.get namespace m name ≡ panic)

fails_before :
    (client : ScaleClient) (namespace name : String) (m : GroupResource) (ms : List GroupResource)
    (e : Error)
    → client.get namespace m name ≡ err e
    → (r : Go (Scale × GroupResource)) → IsFirst client namespace name ms r
    → IsFirst client namespace name (m ∷ ms) r
fails_before client namespace name m ms e eq (ok (s, n)) (xs, ys, split, fails, found) =
    (m ∷ xs, ys, ap (λ zs. m ∷ zs) split, ((e, eq), fails), found)
fails_before client namespace name m ms e eq (err d) h = ((e, eq), h)
fails_before client namespace name m ms e eq panic h = h

try_mappings-IsFirst :
    (client : ScaleClient) (namespace name : String) (e : Option Error) (ms : List GroupResource)
    → IsFirst client namespace name ms (try_mappings client namespace name e ms)
unfolding try_mappings
try_mappings-IsFirst client namespace name e [] = tt
try_mappings-IsFirst client namespace name e (m ∷ ms) =
    go (client.get namespace m name) refl
      (λ d. try_mappings-IsFirst client namespace name (remember e d) ms)
  where
    -- By the answer for the first mapping.
    go :
        (r : Go Scale)
        → client.get namespace m name ≡ r
        → ((d : Error)
            → IsFirst client namespace name ms
                (try_mappings client namespace name (remember e d) ms))
        → IsFirst client namespace name (m ∷ ms) (elim r [
          | ok s ↦ ok (s, m)
          | err d ↦ try_mappings client namespace name (remember e d) ms
          | panic ↦ panic
        ])
    go (ok s) eq h = ([], ms, refl, tt, eq)
    go (err d) eq h =
        fails_before client namespace name m ms d eq
          (try_mappings client namespace name (remember e d) ms) (h d)
    go panic eq h = (m, eq)

-- The scale that is found is that of the first mapping which the client has no error for: every
-- mapping before it fails. An error means that every mapping fails, so an empty list of mappings is
-- an error; and a panic is one of the client.
pub scale_for_resource_mappings-IsFirst :
    (client : ScaleClient) (namespace name : String) (ms : List GroupResource)
    → IsFirst client namespace name ms (scale_for_resource_mappings client namespace name ms)
unfolding scale_for_resource_mappings
scale_for_resource_mappings-IsFirst client namespace name ms =
    try_mappings-IsFirst client namespace name none ms
