-- ===== src/Memory/Multislab/Views.antt =====
-- What a multislab looks like from outside: the blocks that are handed out, the empty slabs, and the
-- memory that it holds. Each is a sum over the nodes, so the order of the lists does not matter.
use cfiber.Common.{ℕ, ◌+◌, ◌≡◌, List, [], ◌∷◌, ◌++◌, arith, ◌==◌, one_if}
use cfiber.Memory.Slab.Blocks.{slab_blocks}
use cfiber.Memory.Backing.{same_region}
use cfiber.Memory.Multislab.{Node, Multislab, node_size}

-- The sum of a quantity over the nodes of a list.
abbrev pub sum_by : (Node → ℕ) → List Node → ℕ
sum_by f [] = 0
sum_by f (n ∷ ns) = f n + sum_by f ns

pub sum_by-append :
    (f : Node → ℕ) (xs ys : List Node) → sum_by f (xs ++ ys) ≡ sum_by f xs + sum_by f ys
sum_by-append f [] ys = omega arith
sum_by-append f (x ∷ xs) ys = omega (arith, sum_by-append f xs ys)

-- A property of every node of a list.
abbrev pub All : (Node → Type 0) → List Node → Type 0
All P [] = Unit
All P (n ∷ ns) = P n × All P ns

pub All-append : (P : Node → Type 0) (xs ys : List Node) → All P xs → All P ys → All P (xs ++ ys)
All-append P [] ys h k = k
All-append P (x ∷ xs) ys h k = (h.0, All-append P xs ys h.1 k)

pub All-left : (P : Node → Type 0) (xs ys : List Node) → All P (xs ++ ys) → All P xs
All-left P [] ys h = tt
All-left P (x ∷ xs) ys h = (h.0, All-left P xs ys h.1)

pub All-right : (P : Node → Type 0) (xs ys : List Node) → All P (xs ++ ys) → All P ys
All-right P [] ys h = h
All-right P (x ∷ xs) ys h = All-right P xs ys h.1

-- How often block address `p` is handed out by a node, by a list, and by a multislab.
abbrev pub node_blocks : ℕ → Node → ℕ
node_blocks p n = slab_blocks p n.slab

abbrev pub handed_out : Multislab → ℕ → ℕ
handed_out ms p = sum_by (node_blocks p) ms.active + sum_by (node_blocks p) ms.full

-- The number of nodes with `used_count == 0`.
abbrev pub is_empty : Node → ℕ
is_empty n = one_if (n.used_count == 0)

abbrev pub empties : Multislab → ℕ
empties ms = sum_by is_empty ms.active + sum_by is_empty ms.full

-- How often the region of `m` bytes at `q` is one of a node's two, for slabs of `size` bytes.
abbrev pub node_regions : ℕ → ℕ → ℕ → Node → ℕ
node_regions size q m n =
    one_if (same_region q m n.addr node_size) + one_if (same_region q m n.raw_memory size)

abbrev pub regions : Multislab → ℕ → ℕ → ℕ
regions ms q m =
    sum_by (node_regions ms.slab_memory_size q m) ms.active
    + sum_by (node_regions ms.slab_memory_size q m) ms.full
