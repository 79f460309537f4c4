-- ===== src/Memory/Multislab/Invariant/Owners.antt =====
-- `find_owning_slab`: a block belongs to one node at most, because the memory of the nodes does not
-- overlap.
use mathlib.Core.List.{append_assoc}
use cfiber.Common.{
  ℕ, ◌+◌, ◌≤◌, ◌<◌, ◌≡◌, inl, inr, refl, ◌∙◌, Bool, true, false, ◌&&◌, List, [], ◌∷◌, ◌++◌, none,
  some, arith, ltb, leb, one_if, Bool-cases,
}
use cfiber.Core.{u64}
use cfiber.Memory.Backing.{Backing, Laws, same_region}
use cfiber.Memory.Multislab.{Node, Place, list_of, find_in}
use cfiber.Memory.Multislab.Views.{sum_by, All, node_blocks, node_regions}
use cfiber.Memory.Multislab.Invariant.Nodes.{NodeOk, node_blocks_outside, extent}

-- The test of the loop: `p` is in the memory of a node.
abbrev pub in_node : ℕ → ℕ → Node → Bool
in_node size p n = leb n.raw_memory p && ltb p (u64 (n.raw_memory + size))

-- The place that the loop finds is in the list, and its node has the address.
pub find_in-some :
    (size p : ℕ) (before xs : List Node) (place : Place)
    → find_in size p before xs ≡ some place
    → (list_of place ≡ before ++ xs) × (in_node size p place.node ≡ true)
unfolding find_in
find_in-some size p before [] place e = absurd (cc)
find_in-some size p before (n ∷ xs) place e = elim (Bool-cases (in_node size p n)) [
  | inl here ↦ ground arith
  | inr later ↦
      let rest : find_in size p (before ++ (n ∷ [])) xs ≡ some place = rw later at e in
      let (whole, inside) = find_in-some size p (before ++ (n ∷ [])) xs place rest in
      (whole ∙ append_assoc before (n ∷ []) xs, inside)
]

-- If it finds none, no node of the list has it.
pub find_in-none :
    (size p : ℕ) (before xs : List Node)
    → find_in size p before xs ≡ none
    → All (λ n. in_node size p n ≡ false) xs
unfolding find_in
find_in-none size p before [] e = tt
find_in-none size p before (n ∷ xs) e = elim (Bool-cases (in_node size p n)) [
  | inl here ↦ absurd (cc (rw here at e))
  | inr later ↦ (later, find_in-none size p (before ++ (n ∷ [])) xs (rw later at e))
]

module _ {size per_slab total : ℕ} {on_full : Bool} where
  -- A node has only blocks of its own memory.
  pub node_elsewhere :
      {n : Node} (p : ℕ)
      → NodeOk size per_slab total on_full n
      → in_node total p n ≡ false
      → node_blocks p n ≡ 0
  node_elsewhere {n} p ok e = node_blocks_outside ok p (ground (arith, extent ok, ok.slab_ok.fits))

pub nodes_elsewhere :
    (size per_slab total : ℕ) (on_full : Bool) (p : ℕ) (xs : List Node)
    → All (NodeOk size per_slab total on_full) xs
    → All (λ n. in_node total p n ≡ false) xs
    → sum_by (node_blocks p) xs ≡ 0
nodes_elsewhere size per_slab total on_full p [] ok e = refl
nodes_elsewhere size per_slab total on_full p (n ∷ xs) ok e =
    omega
      (arith, node_elsewhere p ok.0 e.0, nodes_elsewhere size per_slab total on_full p xs ok.1 e.1)

module _ {b : Backing} (laws : Laws b) (st : b.State) (sound : laws.Sound st) where
  -- `p` is in the region of a slab that is no region of these nodes: then it is no block of theirs.
  others_zero :
      (size per_slab total : ℕ) (on_full : Bool) (p raw : ℕ) (xs : List Node)
      → laws.held st raw total ≡ true
      → raw ≤ p
      → p < raw + total
      → All (NodeOk size per_slab total on_full) xs
      → ((q m : ℕ) → sum_by (node_regions total q m) xs ≤ one_if (laws.held st q m))
      → sum_by (node_regions total raw total) xs ≡ 0
      → sum_by (node_blocks p) xs ≡ 0
  others_zero size per_slab total on_full p raw [] held_raw above below ok held none_same = refl
  others_zero size per_slab total on_full p raw (n ∷ xs) held_raw above below ok held none_same =
      let there : laws.held st n.raw_memory total ≡ true =
        ground (arith, held n.raw_memory total) in
      let differs : same_region n.raw_memory total raw total ≡ false = ground arith in
      let disjoint = laws.apart st raw total n.raw_memory total sound held_raw there differs in
      omega (
        arith,
        node_blocks_outside ok.0 p (omega arith),
        others_zero size per_slab total on_full p raw xs held_raw above below ok.1
            (λ q m. omega (arith, held q m)) (omega arith),
      )

  -- An address in the memory of one node is no block of the others.
  pub alone :
      (size per_slab total : ℕ) (on_full : Bool) (p : ℕ) (n : Node) (xs : List Node)
      → n.raw_memory ≤ p
      → p < n.raw_memory + total
      → All (NodeOk size per_slab total on_full) xs
      → ((q m : ℕ)
          → node_regions total q m n + sum_by (node_regions total q m) xs
            ≤ one_if (laws.held st q m))
      → sum_by (node_blocks p) xs ≡ 0
  alone size per_slab total on_full p n xs above below ok share =
      let own : 0 < node_regions total n.raw_memory total n = ground arith in
      let held_raw : laws.held st n.raw_memory total ≡ true =
        ground (arith, share n.raw_memory total) in
      let none_same : sum_by (node_regions total n.raw_memory total) xs ≡ 0 =
        ground (arith, share n.raw_memory total) in
      others_zero size per_slab total on_full p n.raw_memory xs held_raw above below ok
        (λ q m. omega (arith, share q m)) none_same
