-- ===== src/Memory/Multislab/Alloc/Step.antt =====
-- Taking a block from the head of the active list, once the full nodes before it have moved.
use cfiber.Common.{
  ℕ, ◌+◌, ◌≤◌, ◌<◌, ◌≡◌, refl, ap, ◌∙◌, Bool, true, false, List, [], ◌∷◌, ◌++◌, some, arith, length,
  length-append, ◌==◌, one_if,
}
use cfiber.Memory.Slab.{Slab, slab_alloc}
use cfiber.Memory.Backing.{Backing, Laws}
use cfiber.Memory.Multislab.{Node, Multislab, use_active, inc32}
use cfiber.Memory.Multislab.Views.{
  sum_by, sum_by-append, All, All-left, All-right, node_blocks, handed_out, is_empty, node_regions,
}
use cfiber.Memory.Multislab.Invariant.{Inv, KeepsReserve, NodeOk, Took, node_alloc_some, alone}
use cfiber.Memory.Multislab.Alloc.Scan.{
  push_full, sum_by-push_full, length-push_full, push_full-ok, AreFull,
}

pub is_empty-sum_le : (xs : List Node) → sum_by is_empty xs ≤ length xs
is_empty-sum_le [] = omega arith
is_empty-sum_le (n ∷ xs) = ground (arith, is_empty-sum_le xs)

full-not-empty :
    (size per_slab total : ℕ)
    → 0 < per_slab
    → (xs : List Node) → All (NodeOk size per_slab total true) xs
    → sum_by is_empty xs ≡ 0
full-not-empty size per_slab total h [] ok = refl
full-not-empty size per_slab total h (n ∷ xs) ok =
    let room = ok.0.no_room in ground (arith, full-not-empty size per_slab total h xs ok.1)

module _ {b : Backing} (laws : Laws b) (base : ℕ → ℕ → Bool) (ms : Multislab) (st : b.State)
    (inv : Inv laws base ms st) (moved : List Node) (n : Node) (rest : List Node) (p : ℕ)
    (slab : Slab) (whole : ms.active ≡ moved ++ (n ∷ rest))
    (are : AreFull ms.block_size ms.blocks_per_slab ms.slab_memory_size moved)
    (alloc : slab_alloc n.slab ≡ (some p, slab)) where
  -- the multislab after the call
  abbrev pub taken : Multislab
  taken =
      use_active
        (record ms { active = record n { slab = slab } ∷ rest; full = push_full moved ms.full })

  parts :
      All (NodeOk ms.block_size ms.blocks_per_slab ms.slab_memory_size false) (moved ++ (n ∷ rest))
  parts = rw whole at inv.active_ok

  rest_ok : All (NodeOk ms.block_size ms.blocks_per_slab ms.slab_memory_size false) (n ∷ rest)
  rest_ok = All-right _ moved (n ∷ rest) parts

  step :
      Took ms.block_size ms.blocks_per_slab ms.slab_memory_size n
        (record n { slab = slab; used_count = inc32 n.used_count })
        p
  step = node_alloc_some rest_ok.0 p slab alloc

  -- a quantity summed over the lists before the call, and after it
  sum_before : (f : Node → ℕ) → sum_by f ms.active ≡ sum_by f moved + (f n + sum_by f rest)
  sum_before f = ap (sum_by f) whole ∙ sum_by-append f moved (n ∷ rest)

  sum_full :
      (f : Node → ℕ)
      → ((m : Node) → f (record m { is_full = true }) ≡ f m)
      → sum_by f (push_full moved ms.full) ≡ sum_by f moved + sum_by f ms.full
  sum_full f same = sum_by-push_full f moved ms.full same

  share :
      (q m : ℕ)
      → one_if (laws.held st q m)
        ≡ one_if (base q m)
          + (sum_by (node_regions ms.slab_memory_size q m) moved
              + (node_regions ms.slab_memory_size q m n
                  + sum_by (node_regions ms.slab_memory_size q m) rest)
              + sum_by (node_regions ms.slab_memory_size q m) ms.full)
  share q m = omega (arith, inv.accounts q m, sum_before (node_regions ms.slab_memory_size q m))

  -- The block was not handed out before.
  pub taken_new : handed_out ms p ≡ 0
  taken_new =
      let alone_in = alone laws st inv.sound ms.block_size ms.blocks_per_slab ms.slab_memory_size in
      let above = step.inside.0 in
      let below = step.inside.1 in
      omega (
        arith,
        sum_before (node_blocks p),
        step.new_block,
        alone_in false p n moved above below (All-left _ moved (n ∷ rest) parts)
            (λ q m. omega (arith, share q m)),
        alone_in false p n rest above below rest_ok.1 (λ q m. omega (arith, share q m)),
        alone_in true p n ms.full above below inv.full_ok (λ q m. omega (arith, share q m)),
      )

  -- It is handed out now, and no other block is touched.
  pub taken_more : (q : ℕ) → handed_out taken q ≡ handed_out ms q + one_if (q == p)
  unfolding use_active
  taken_more q =
      omega
        (arith, sum_before (node_blocks q), sum_full (node_blocks q) (λ m. refl), step.one_more q)

  pub taken-Inv : Inv laws base taken st
  unfolding use_active
  taken-Inv = record {
    block_pos = inv.block_pos;
    per_slab_pos = inv.per_slab_pos;
    per_slab_le = inv.per_slab_le;
    memory_size = inv.memory_size;
    line_multiple = inv.line_multiple;
    active_ok = (step.ok_after, rest_ok.1);
    full_ok = push_full-ok _ _ _ moved ms.full are inv.full_ok;
    counted = omega (
      arith,
      inv.counted,
      length-push_full moved ms.full,
      ap length whole,
      length-append moved (n ∷ rest),
    );
    small = inv.small;
    limited = inv.limited;
    empties_counted = ground (
      arith,
      inv.empties_counted,
      inv.counted,
      inv.small,
      sum_before is_empty,
      sum_full is_empty (λ x. refl),
      step.not_empty,
      is_empty-sum_le ms.active,
      is_empty-sum_le ms.full,
    );
    sound = inv.sound;
    accounts = λ q m. omega (
      arith,
      inv.accounts q m,
      sum_before (node_regions ms.slab_memory_size q m),
      sum_full (node_regions ms.slab_memory_size q m) (λ x. refl),
    );
  }

  pub taken-KeepsReserve : KeepsReserve ms → KeepsReserve taken
  unfolding use_active
  taken-KeepsReserve kept = ground (
    arith,
    inv.empties_counted,
    inv.counted,
    inv.small,
    sum_before is_empty,
    is_empty-sum_le ms.active,
    is_empty-sum_le ms.full,
  )

  -- With no node behind the head, no slab is empty.
  pub taken_no_empty : rest ≡ [] → taken.empty_count ≡ 0
  unfolding use_active
  taken_no_empty e = omega (
    arith,
    taken-Inv.empties_counted,
    ap (sum_by is_empty) e,
    step.not_empty,
    full-not-empty _ _ _ inv.per_slab_pos _ taken-Inv.full_ok,
  )
