-- ===== src/Memory/Multislab/Words.antt =====
-- Blocks lie inside the address space.
use cfiber.Common.{
  ℕ, ◌^◌, ◌≤◌, ◌<◌, ◌≡◌, refl, arith, Bool, true, false, List, [], ◌∷◌, inr, dec_lt,
}
use cfiber.Memory.Slab.Blocks.{slab_blocks_outside}
use cfiber.Memory.Backing.{Backing, Laws}
use cfiber.Memory.Multislab.{Node, Multislab}
use cfiber.Memory.Multislab.Views.{All, sum_by, node_blocks, handed_out}
use cfiber.Memory.Multislab.Invariant.{NodeOk, Inv}

nodes_word :
    (size per_slab total : ℕ) (on_full : Bool) (p : ℕ) (xs : List Node)
    → All (NodeOk size per_slab total on_full) xs
    → 2 ^ 64 ≤ p
    → sum_by (node_blocks p) xs ≡ 0
nodes_word size per_slab total on_full p [] ok far = refl
nodes_word size per_slab total on_full p (n ∷ xs) ok far =
    let v = ok.0.slab_ok in
    let here = slab_blocks_outside p n.slab v (inr (omega (arith, v.fits, far))) in
    omega (arith, here, nodes_word size per_slab total on_full p xs ok.1 far)

-- What is handed out is an address.
pub handed_out_word :
    {b : Backing} (laws : Laws b) (base : ℕ → ℕ → Bool) (ms : Multislab) (st : b.State) (p : ℕ)
    → Inv laws base ms st
    → 0 < handed_out ms p
    → p < 2 ^ 64
handed_out_word laws base ms st p inv out = elim (dec_lt p (2 ^ 64)) [
  | yes lt ↦ lt
  | no far ↦ absurd (
      omega (
        arith,
        out,
        nodes_word _ _ _ false p ms.active inv.active_ok (omega (arith, far)),
        nodes_word _ _ _ true p ms.full inv.full_ok (omega (arith, far)),
      ))
]
