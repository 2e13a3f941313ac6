-- ===== src/Common/Range.antt =====
-- The order in which Go ranges over a map or a set, which the language leaves open: a parameter of
-- the model, of which only this is assumed, that each element comes exactly once.
use Prim.Native.String.{String}
use mathlib.Core.List.{List, Perm}
use mathlib.Core.List.Perm

pub record MapRange : Type 0 where
  pub range : List String → List String
  pub range_perm : (xs : List String) → Perm (range xs) xs

-- The order of the list that stands for the set.
abbrev pub in_order : MapRange
in_order = record { range = λ xs. xs; range_perm = λ xs. Perm.refl xs }
