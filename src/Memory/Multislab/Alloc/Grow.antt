-- ===== src/Memory/Multislab/Alloc/Grow.antt =====
-- `multislab_grow`: a new empty slab at the head of the active list, or nothing changed.
use native.Mathlib.Nat.{mul-div_cancel}
use cfiber.Common.{
  ℕ, ◌+◌, ◌/◌, ◌%◌, ◌^◌, ◌≤◌, ◌<◌, ◌≡◌, ◌≢◌, refl, sym, ap, ap₂, ◌∙◌, ◌⊎◌, inl, inr, Bool, true,
  false, ◌&&◌, ◌∷◌, Option, none, some, arith, ◌!=◌, leb, if◌then◌else◌, one_if, Bool-cases,
}
use cfiber.Memory.Slab.{Slab}
use cfiber.Memory.Slab.Invariant.{Accepts, IsValid, is_used, slab_init_lem}
use cfiber.Memory.Slab.Count.{count_below_none}
use cfiber.Memory.Backing.{Backing, Laws, same_region}
use cfiber.Memory.Multislab.{
  Node, Multislab, multislab_grow, grow_with, grow_memory, grow_node, node_size, inc32,
}
use cfiber.Memory.Multislab.Invariant.{Inv, NodeOk}
use cfiber.Memory.Multislab.Alloc.Step.{is_empty-sum_le}

-- Only the regions that are held matter to a multislab.
pub Inv-held :
    {b : Backing} {laws : Laws b} {base : ℕ → ℕ → Bool} {ms : Multislab} {st : b.State}
    (st' : b.State)
    → Inv laws base ms st
    → laws.Sound st'
    → ((q m : ℕ) → laws.held st' q m ≡ laws.held st q m)
    → Inv laws base ms st'
Inv-held st' inv sound same = record {
  block_pos = inv.block_pos;
  per_slab_pos = inv.per_slab_pos;
  per_slab_le = inv.per_slab_le;
  memory_size = inv.memory_size;
  line_multiple = inv.line_multiple;
  active_ok = inv.active_ok;
  full_ok = inv.full_ok;
  counted = inv.counted;
  small = inv.small;
  limited = inv.limited;
  empties_counted = inv.empties_counted;
  sound = sound;
  accounts = λ q m. ap one_if (same q m) ∙ inv.accounts q m;
}

-- Why there is no new slab.
pub data Refusal (b : Backing) (ms : Multislab) (st : b.State) : Type 0 where
  at_limit : ms.max_slabs ≢ 0 → ms.max_slabs ≤ ms.slab_count → Refusal b ms st
  no_node : (b.mem_alloc node_size st).0 ≡ none → Refusal b ms st
  no_slab :
      (node : ℕ) (st1 : b.State)
      → b.mem_alloc node_size st ≡ (some node, st1)
      → (b.mem_alloc ms.slab_memory_size st1).0 ≡ none
      → Refusal b ms st

pub data Grown {b : Backing} (laws : Laws b) (base : ℕ → ℕ → Bool) (ms : Multislab) (st : b.State)
    (r : Bool × Multislab × b.State) : Type 0 where
  grown :
      (fresh : Node)
      → r.0 ≡ true
      → r.1 ≡ record ms {
        active = fresh ∷ ms.active;
        slab_count = inc32 ms.slab_count;
        empty_count = inc32 ms.empty_count;
      }
      → Inv laws base r.1 r.2
      → ((i : ℕ) → is_used fresh.slab i ≡ false)
      → Grown laws base ms st r
  refused :
      r.0 ≡ false → r.1 ≡ ms → Inv laws base ms r.2 → Refusal b ms st → Grown laws base ms st r

module _ {b : Backing} (laws : Laws b) (base : ℕ → ℕ → Bool) (ms : Multislab) where
  -- `cfiber_slab_init` takes the memory of a new slab.
  accepted :
      {st : b.State} (mem : ℕ)
      → Inv laws base ms st
      → mem % 16 ≡ 0
      → Accepts ms.block_size mem ms.slab_memory_size
        × (ms.slab_memory_size / ms.block_size ≡ ms.blocks_per_slab)
  accepted mem inv aligned =
      let count : ms.slab_memory_size / ms.block_size ≡ ms.blocks_per_slab =
        rw inv.memory_size (mul-div_cancel ms.blocks_per_slab (omega (arith, inv.block_pos))) in
      (
        record {
          size_pos = λ e. omega (arith, inv.block_pos);
          line_multiple = inv.line_multiple;
          holds_block = grind (arith, inv.memory_size, inv.per_slab_pos);
          aligned = aligned;
          few_blocks = omega (arith, inv.per_slab_le);
        },
        count,
      )

  total_pos : {st : b.State} → Inv laws base ms st → 0 < ms.slab_memory_size
  total_pos inv = grind (arith, inv.memory_size, inv.per_slab_pos, inv.block_pos)

  -- The node that `multislab_grow` makes.
  abbrev fresh_node : ℕ → ℕ → Slab → Node
  fresh_node node mem slab = record {
    addr = node;
    slab = slab;
    used_count = 0;
    is_full = false;
    raw_memory = mem;
  }

  fresh-ok :
      {st : b.State} (node mem : ℕ) (slab : Slab)
      → Inv laws base ms st
      → IsValid slab
      → slab.memory ≡ mem
      → slab.block_size ≡ ms.block_size
      → slab.block_count ≡ ms.blocks_per_slab
      → ((i : ℕ) → is_used slab i ≡ false)
      → NodeOk ms.block_size ms.blocks_per_slab ms.slab_memory_size false (fresh_node node mem slab)
  fresh-ok node mem slab inv v at size count unused = record {
    slab_ok = v;
    memory_at = at;
    block_size_is = size;
    block_count_is = count;
    total_is = inv.memory_size;
    used = sym (count_below_none slab.block_count (is_used slab) (λ j _. unused j));
    flag = refl;
    no_room = inl refl;
  }

  module _ (st st2 : b.State) (node mem : ℕ) (inv : Inv laws base ms st)
      (room : ms.slab_count + 1 < 2 ^ 32)
      (below_limit : (ms.max_slabs ≡ 0) ⊎ (ms.slab_count < ms.max_slabs)) (sound : laws.Sound st2)
      (aligned : mem % 16 ≡ 0) (fits : mem + ms.slab_memory_size < 2 ^ 64)
      (both : (q m : ℕ)
        → one_if (laws.held st2 q m)
          ≡ one_if (laws.held st q m)
            + one_if (same_region q m node node_size)
            + one_if (same_region q m mem ms.slab_memory_size)) where
    grown-Inv :
        (slab : Slab)
        → NodeOk ms.block_size ms.blocks_per_slab ms.slab_memory_size false
            (fresh_node node mem slab)
        → Inv laws base
            (record ms {
              active = fresh_node node mem slab ∷ ms.active;
              slab_count = inc32 ms.slab_count;
              empty_count = inc32 ms.empty_count;
            })
            st2
    grown-Inv slab ok =
        let exact : inc32 ms.slab_count ≡ ms.slab_count + 1 = omega arith in
        record {
          block_pos = inv.block_pos;
          per_slab_pos = inv.per_slab_pos;
          per_slab_le = inv.per_slab_le;
          memory_size = inv.memory_size;
          line_multiple = inv.line_multiple;
          active_ok = (ok, inv.active_ok);
          full_ok = inv.full_ok;
          counted = omega (arith, inv.counted);
          small = omega arith;
          limited = grind (arith, below_limit);
          empties_counted = omega (
            arith,
            inv.empties_counted,
            inv.counted,
            is_empty-sum_le ms.active,
            is_empty-sum_le ms.full,
          );
          sound = sound;
          accounts = λ q m. omega (arith, both q m, inv.accounts q m);
        }

    grow_with-Grown : Grown laws base ms st (grow_with b ms node mem st2)
    unfolding grow_with
    grow_with-Grown =
        let (good, count) = accepted mem inv aligned in
        elim (slab_init_lem ms.block_size mem ms.slab_memory_size fits) [
          | inl (e, bad) ↦ absurd (bad good)
          | inr (slab, e, a, v, at, size, blocks, unused) ↦
              rw (e, grow_with)
                (grown (fresh_node node mem slab) refl refl
                  (grown-Inv slab (fresh-ok node mem slab inv v at size (blocks ∙ count) unused))
                  unused)
        ]

  at_region :
      (st : b.State) (q m p n : ℕ)
      → same_region q m p n ≡ true
      → laws.held st q m ≡ laws.held st p n
  at_region st q m p n e = ap₂ (laws.held st) (ground arith) (ground arith)

  module _ (st st1 : b.State) (node : ℕ) (inv : Inv laws base ms st) (sound1 : laws.Sound st1)
      (first : b.mem_alloc node_size st ≡ (some node, st1))
      (new1 : laws.held st node node_size ≡ false)
      (held1 : (q m : ℕ)
        → laws.held st1 q m ≡ (if same_region q m node node_size then true else laws.held st q m))
      (room : ms.slab_count + 1 < 2 ^ 32)
      (below_limit : (ms.max_slabs ≡ 0) ⊎ (ms.slab_count < ms.max_slabs)) where
    node_held : laws.held st1 node node_size ≡ true
    node_held = ground (arith, held1 node node_size)

    -- With no memory for the slab, the node goes back.
    undone :
        (r : b.State)
        → laws.Sound r
        → ((q m : ℕ) → laws.held r q m ≡ laws.held st1 q m)
        → (q m : ℕ) → laws.held (b.mem_free node node_size r) q m ≡ laws.held st q m
    undone r sound same q m = ground (
      arith,
      laws.free_held node node_size r q m sound (same node node_size ∙ node_held),
      same q m,
      held1 q m,
      at_region st q m node node_size,
      new1,
    )

    grow_memory-Grown :
        (r : Option ℕ × b.State)
        → b.mem_alloc ms.slab_memory_size st1 ≡ r
        → Grown laws base ms st (grow_memory b ms node r)
    unfolding grow_memory
    grow_memory-Grown (none, st2) e =
        let total = total_pos inv in
        let sound2 = laws.alloc-Sound ms.slab_memory_size st1 st2 none total sound1 e in
        let same = λ (q m : ℕ). laws.alloc_none ms.slab_memory_size st1 st2 q m e in
        refused refl refl
          (Inv-held _ inv
            (laws.free-Sound node node_size st2 (same node node_size ∙ node_held) sound2)
            (undone st2 sound2 same))
          (no_slab node st1 first (ap (λ (t : Option ℕ × b.State). t.0) e))
    grow_memory-Grown (some mem, st2) e =
        let total = total_pos inv in
        let (new2, aligned, fits) = laws.alloc_new ms.slab_memory_size st1 st2 mem total sound1 e in
        let sound2 = laws.alloc-Sound ms.slab_memory_size st1 st2 (some mem) total sound1 e in
        grow_with-Grown st st2 node mem inv room below_limit sound2 aligned fits (λ q m. ground (
          arith,
          laws.alloc_held ms.slab_memory_size st1 st2 mem q m total sound1 e,
          held1 q m,
          at_region st q m node node_size,
          at_region st1 q m mem ms.slab_memory_size,
          new1,
          new2,
        ))

  limit_cases :
      (ms.max_slabs != 0 && leb ms.max_slabs ms.slab_count) ≡ false
      → (ms.max_slabs ≡ 0) ⊎ (ms.slab_count < ms.max_slabs)
  limit_cases e = grind arith

  grow_node-Grown :
      (st : b.State) (r : Option ℕ × b.State)
      → Inv laws base ms st
      → ms.slab_count + 1 < 2 ^ 32
      → (ms.max_slabs ≡ 0) ⊎ (ms.slab_count < ms.max_slabs)
      → b.mem_alloc node_size st ≡ r
      → Grown laws base ms st (grow_node b ms r)
  unfolding grow_node
  grow_node-Grown st (none, st1) inv room below_limit e =
      refused refl refl
        (Inv-held st1 inv (laws.alloc-Sound node_size st st1 none (omega arith) inv.sound e)
          (λ q m. laws.alloc_none node_size st st1 q m e))
        (no_node (ap (λ (t : Option ℕ × b.State). t.0) e))
  grow_node-Grown st (some node, st1) inv room below_limit e =
      let sound1 = laws.alloc-Sound node_size st st1 (some node) (omega arith) inv.sound e in
      let (new1, aligned, fits) = laws.alloc_new node_size st st1 node (omega arith) inv.sound e in
      grow_memory-Grown st st1 node inv sound1 e new1
        (λ q m. laws.alloc_held node_size st st1 node q m (omega arith) inv.sound e) room
        below_limit _ refl

  -- `multislab_grow` either adds one slab with no block handed out, or changes nothing, because the
  -- limit is reached or there is no memory.
  pub multislab_grow-Grown :
      (st : b.State)
      → Inv laws base ms st
      → ms.slab_count + 1 < 2 ^ 32
      → Grown laws base ms st (multislab_grow b ms st)
  unfolding multislab_grow
  multislab_grow-Grown st inv room =
      elim (Bool-cases (ms.max_slabs != 0 && leb ms.max_slabs ms.slab_count)) [
        | inl limit ↦ rw limit (refused refl refl inv (at_limit (ground arith) (ground arith)))
        | inr free ↦ rw free (grow_node-Grown st _ inv room (limit_cases free) refl)
      ]
