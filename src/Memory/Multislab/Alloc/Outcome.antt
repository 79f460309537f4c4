-- ===== src/Memory/Multislab/Alloc/Outcome.antt =====
-- The whole of `cfiber_multislab_alloc`.
use cfiber.Common.{
  ℕ, ◌+◌, ◌^◌, ◌<◌, ◌≡◌, refl, ap, inl, Bool, true, false, List, [], ◌∷◌, Option, none, some, arith,
  ◌==◌, one_if,
}
use cfiber.Memory.Slab.{Slab, slab_alloc}
use cfiber.Memory.Slab.Invariant.{IsValid, is_used}
use cfiber.Memory.Slab.Alloc.{Allocs, taken, exhausted, slab_alloc-Allocs}
use cfiber.Memory.Slab.Blocks.{slab_blocks_none}
use cfiber.Memory.Backing.{Backing, Laws}
use cfiber.Memory.Multislab.{
  Node, Multislab, multislab_alloc, multislab_grow, alloc_after, alloc_grown, alloc_active,
  alloc_head, use_active,
}
use cfiber.Memory.Multislab.Views.{node_blocks, handed_out, is_empty, node_regions}
use cfiber.Memory.Multislab.Invariant.{Inv, KeepsReserve}
use cfiber.Memory.Multislab.Alloc.Scan.{
  push_full, sum_by-push_full, length-push_full, push_full-ok, AreFull, Scan, stopped, drained,
  alloc_active-Scan,
}
use cfiber.Memory.Multislab.Alloc.Step
use cfiber.Memory.Multislab.Alloc.Grow.{
  Refusal, at_limit, no_node, no_slab, Grown, grown, refused, multislab_grow-Grown,
}

-- What `cfiber_multislab_alloc` may do.
pub data Allocated {b : Backing} (laws : Laws b) (base : ℕ → ℕ → Bool) (ms : Multislab)
    (st : b.State) (r : Option ℕ × Multislab × b.State) : Type 0 where
  got :
      (p : ℕ)
      → r.0 ≡ some p
      → Inv laws base r.1 r.2
      → KeepsReserve r.1
      → handed_out ms p ≡ 0
      → ((q : ℕ) → handed_out r.1 q ≡ handed_out ms q + one_if (q == p))
      → Allocated laws base ms st r
  failed :
      r.0 ≡ none
      → Inv laws base r.1 r.2
      → KeepsReserve r.1
      → ((q : ℕ) → handed_out r.1 q ≡ handed_out ms q)
      → r.1.active ≡ []
      → Refusal b ms st
      → Allocated laws base ms st r

fresh_alloc :
    (s : Slab) (r : Option ℕ × Slab)
    → IsValid s
    → ((i : ℕ) → is_used s i ≡ false)
    → Allocs s r
    → (p : ℕ) × (r.0 ≡ some p)
fresh_alloc s r v unused (taken i lt free lower at shape on) = (_, at)
fresh_alloc s r v unused (exhausted all nothing same) = absurd (cc (unused 0, all 0 v.count_pos))

-- The multislab after the loop has moved every node to the full list.
abbrev drained_ms : Multislab → Multislab
drained_ms ms = record ms { active = []; full = push_full ms.active ms.full }

Refusal-drained :
    {b : Backing} (ms : Multislab) (st : b.State) → Refusal b (drained_ms ms) st → Refusal b ms st
Refusal-drained ms st (at_limit some_limit reached) = at_limit some_limit reached
Refusal-drained ms st (no_node e) = no_node e
Refusal-drained ms st (no_slab node st1 first e) = no_slab node st1 first e

module _ {b : Backing} (laws : Laws b) (base : ℕ → ℕ → Bool) (ms : Multislab) (st : b.State)
    (inv : Inv laws base ms st) (kept : KeepsReserve ms) where
  drained-Inv :
      AreFull ms.block_size ms.blocks_per_slab ms.slab_memory_size ms.active
      → Inv laws base (drained_ms ms) st
  drained-Inv are = record {
    block_pos = inv.block_pos;
    per_slab_pos = inv.per_slab_pos;
    per_slab_le = inv.per_slab_le;
    memory_size = inv.memory_size;
    line_multiple = inv.line_multiple;
    active_ok = tt;
    full_ok = push_full-ok _ _ _ ms.active ms.full are inv.full_ok;
    counted = omega (arith, inv.counted, length-push_full ms.active ms.full);
    small = inv.small;
    limited = inv.limited;
    empties_counted =
        omega (arith, inv.empties_counted, sum_by-push_full is_empty ms.active ms.full (λ n. refl));
    sound = inv.sound;
    accounts = λ q m. omega (
      arith,
      inv.accounts q m,
      sum_by-push_full (node_regions ms.slab_memory_size q m) ms.active ms.full (λ n. refl),
    );
  }

  drained_same : (q : ℕ) → handed_out (drained_ms ms) q ≡ handed_out ms q
  drained_same q = omega (arith, sum_by-push_full (node_blocks q) ms.active ms.full (λ n. refl))

  -- The last call of `cfiber_slab_alloc`, on the slab that was added.
  after_grow :
      (fresh : Node) (ms2 : Multislab) (st2 : b.State)
      → ms2.active ≡ fresh ∷ []
      → ((q : ℕ) → handed_out ms2 q ≡ handed_out ms q + node_blocks q fresh)
      → Inv laws base ms2 st2
      → ((i : ℕ) → is_used fresh.slab i ≡ false)
      → let (ptr, active) = alloc_head ms2.active in
        Allocated laws base ms st (ptr, use_active (record ms2 { active = active }), st2)
  unfolding alloc_head
  after_grow fresh ms2 st2 one same inv2 unused =
      let ok = (rw one at inv2.active_ok).0 in
      let (p, e) =
        fresh_alloc fresh.slab (slab_alloc fresh.slab) ok.slab_ok unused
          (slab_alloc-Allocs ok.slab_ok) in
      let slab = (slab_alloc fresh.slab).1 in
      let call : slab_alloc fresh.slab ≡ (some p, slab) = ground arith in
      let none_yet =
        λ (q : ℕ). slab_blocks_none q fresh.slab (λ i h u. absurd (cc (u, unused i))) in
      rw (one, e)
        (got p refl (Step.taken-Inv laws base ms2 st2 inv2 [] fresh [] p slab one tt call)
          (inl (
            omega (
              arith,
              Step.taken_no_empty laws base ms2 st2 inv2 [] fresh [] p slab one tt call refl,
            )))
          (omega
            (arith, Step.taken_new laws base ms2 st2 inv2 [] fresh [] p slab one tt call, same p))
          (λ q. omega (
            arith,
            Step.taken_more laws base ms2 st2 inv2 [] fresh [] p slab one tt call q,
            same q,
            none_yet q,
          )))

  Grown-outcome :
      (r : Bool × Multislab × b.State)
      → AreFull ms.block_size ms.blocks_per_slab ms.slab_memory_size ms.active
      → Grown laws base (drained_ms ms) st r
      → Allocated laws base ms st (alloc_grown b r)
  unfolding alloc_grown
  Grown-outcome (true, ms2, st2) are (grown fresh yes_grown after inv2 unused) =
      after_grow fresh ms2 st2 (ap (λ (t : Multislab). t.active) after)
        (λ q. omega (arith, ap (λ (t : Multislab). handed_out t q) after, drained_same q)) inv2
        unused
  Grown-outcome (false, ms2, st2) are (grown fresh yes_grown after inv2 unused) = absurd (cc)
  Grown-outcome (true, ms2, st2) are (refused not_grown same inv2 why) = absurd (cc)
  Grown-outcome (false, ms2, st2) are (refused not_grown same inv2 why) =
      rw same (failed refl inv2 kept drained_same refl (Refusal-drained ms st why))

  Scan-outcome :
      (r : Option ℕ × List Node × List Node)
      → ms.slab_count + 1 < 2 ^ 32
      → Scan ms.block_size ms.blocks_per_slab ms.slab_memory_size ms.active ms.full r
      → let (ptr, active, full) = r in
        Allocated laws base ms st
          (alloc_after b ptr (record ms { active = active; full = full }) st)
  unfolding alloc_after
  Scan-outcome r room (stopped moved n rest p slab whole are call e) = rw e (
      got p refl (Step.taken-Inv laws base ms st inv moved n rest p slab whole are call)
        (Step.taken-KeepsReserve laws base ms st inv moved n rest p slab whole are call kept)
        (Step.taken_new laws base ms st inv moved n rest p slab whole are call)
        (Step.taken_more laws base ms st inv moved n rest p slab whole are call))
  Scan-outcome r room (drained are e) = rw e (
      Grown-outcome (multislab_grow b (drained_ms ms) st) are
        (multislab_grow-Grown laws base (drained_ms ms) st (drained-Inv are) room))

-- On a well-formed multislab that keeps its reserve, with room for one more slab in its 32-bit
-- counter, `cfiber_multislab_alloc` keeps both. The block that it returns was not handed out before,
-- it is handed out once now, and no other block changes hands. If it returns `NULL` no block changes
-- hands, every slab is full, and the slab limit is reached or the backing allocator has refused.
pub multislab_alloc-Allocated :
    {b : Backing} (laws : Laws b) (base : ℕ → ℕ → Bool) (ms : Multislab) (st : b.State)
    → Inv laws base ms st
    → KeepsReserve ms
    → ms.slab_count + 1 < 2 ^ 32
    → Allocated laws base ms st (multislab_alloc b ms st)
unfolding multislab_alloc
multislab_alloc-Allocated laws base ms st inv kept room =
    Scan-outcome laws base ms st inv kept (alloc_active ms.active ms.full) room
      (alloc_active-Scan _ _ _ ms.active ms.full inv.active_ok)

-- The two invariants, whichever way a call has gone.
pub Allocated-Inv :
    {b : Backing} {laws : Laws b} {base : ℕ → ℕ → Bool} {ms : Multislab} {st : b.State}
    {r : Option ℕ × Multislab × b.State}
    → Allocated laws base ms st r
    → Inv laws base r.1 r.2 × KeepsReserve r.1
Allocated-Inv (got p e inv kept fresh more) = (inv, kept)
Allocated-Inv (failed e inv kept same full why) = (inv, kept)
