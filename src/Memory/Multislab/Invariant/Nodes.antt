-- ===== src/Memory/Multislab/Invariant/Nodes.antt =====
-- A node of a multislab, and the blocks that it hands out.
use cfiber.Common.{
  ℕ, ◌+◌, ◌-◌, ◌*◌, ◌^◌, ◌≤◌, ◌<◌, ◌≡◌, ◌⊎◌, inl, inr, refl, sym, ◌∙◌, Bool, true, false, none,
  some, arith, ◌==◌, if◌then◌else◌, one_if, ℕ_discrete, eq→==, ne→==,
}
use cfiber.Memory.Slab.{Slab, slab_alloc, slab_release}
use cfiber.Memory.Slab.Invariant.{is_used, block_at, IsValid}
use cfiber.Memory.Slab.Alloc.{Allocs, taken, exhausted, slab_alloc-Allocs, slab_alloc-IsValid}
use cfiber.Memory.Slab.Release.{
  Releases, freed, rejected, slab_release-Releases, slab_release-IsValid,
}
use cfiber.Memory.Slab.Count.{count_below, count_below-le, count_below_on, count_below_all}
use cfiber.Memory.Slab.Blocks.{
  block_inside, slab_blocks_outside, slab_blocks_none, slab_blocks_pos, slab_blocks_unused,
  slab_blocks_on,
}
use cfiber.Memory.Multislab.{Node, inc32, dec32}
use cfiber.Memory.Multislab.Views.{node_blocks, is_empty}

-- A node of `per_slab` blocks of `size` bytes, `total` in all, on the full list or not.
pub record NodeOk (size per_slab total : ℕ) (on_full : Bool) (n : Node) : Type 0 where
  pub slab_ok : IsValid n.slab
  pub memory_at : n.slab.memory ≡ n.raw_memory
  pub block_size_is : n.slab.block_size ≡ size
  pub block_count_is : n.slab.block_count ≡ per_slab
  pub total_is : total ≡ per_slab * size
  pub used : n.used_count ≡ count_below n.slab.block_count (is_used n.slab)
  pub flag : n.is_full ≡ on_full
  pub no_room : (on_full ≡ false) ⊎ (n.used_count ≡ per_slab)

module _ {size per_slab total : ℕ} {on_full : Bool} {n : Node}
    (ok : NodeOk size per_slab total on_full n) where
  -- the slab takes up the node's memory
  pub extent : n.slab.memory + n.slab.block_count * n.slab.block_size ≡ n.raw_memory + total
  extent = rw (ok.memory_at, ok.block_size_is, ok.block_count_is, ok.total_is)

  pub node_blocks_outside :
      (p : ℕ) → (p < n.raw_memory) ⊎ (n.raw_memory + total ≤ p) → node_blocks p n ≡ 0
  node_blocks_outside p out =
      slab_blocks_outside p n.slab ok.slab_ok (omega (arith, extent, ok.memory_at))

-- A node whose slab has handed out the block at `p`.
pub record Took (size per_slab total : ℕ) (n n' : Node) (p : ℕ) : Type 0 where
  pub ok_after : NodeOk size per_slab total false n'
  pub new_block : node_blocks p n ≡ 0
  pub one_more : (q : ℕ) → node_blocks q n' ≡ node_blocks q n + one_if (q == p)
  pub inside : (n.raw_memory ≤ p) × (p < n.raw_memory + total)
  pub not_empty : is_empty n' ≡ 0

module _ {size per_slab total : ℕ} {n : Node} (ok : NodeOk size per_slab total false n) where
  took :
      (p : ℕ) (slab : Slab)
      → Allocs n.slab (some p, slab)
      → IsValid slab
      → Took size per_slab total n (record n { slab = slab; used_count = inc32 n.used_count }) p
  took p slab (taken i lt unused lower at shape on) v =
      let at_i : p ≡ block_at n.slab i = ground arith in
      let more : count_below slab.block_count (is_used slab) ≡ n.used_count + 1 =
        rw (shape.2, ok.used)
          (count_below_on n.slab.block_count i (is_used n.slab) (is_used slab) lt unused on) in
      let bound = count_below-le slab.block_count (is_used slab) in
      let exact : inc32 n.used_count ≡ n.used_count + 1 = omega (arith, v.count_le) in
      let place = block_inside n.slab i ok.slab_ok.block_pos lt in
      record {
        ok_after = record {
          slab_ok = v;
          memory_at = shape.0 ∙ ok.memory_at;
          block_size_is = shape.1 ∙ ok.block_size_is;
          block_count_is = shape.2 ∙ ok.block_count_is;
          total_is = ok.total_is;
          used = omega arith;
          flag = ok.flag;
          no_room = inl refl;
        };
        new_block = rw at_i (slab_blocks_unused n.slab i ok.slab_ok lt unused);
        one_more = λ q. rw at_i (slab_blocks_on q i n.slab slab ok.slab_ok lt unused shape on);
        inside = omega (arith, place, extent ok, ok.memory_at);
        not_empty = ground arith;
      }
  took p slab (exhausted all nothing same) v = absurd (cc)

  -- `cfiber_slab_alloc` on the node's slab, and the count that goes with it.
  pub node_alloc_some :
      (p : ℕ) (slab : Slab)
      → slab_alloc n.slab ≡ (some p, slab)
      → Took size per_slab total n (record n { slab = slab; used_count = inc32 n.used_count }) p
  node_alloc_some p slab e =
      took p slab (rw e at (slab_alloc-Allocs ok.slab_ok)) (rw e at (slab_alloc-IsValid ok.slab_ok))

  full_after :
      (slab : Slab)
      → Allocs n.slab (none, slab)
      → NodeOk size per_slab total true (record n { slab = slab; is_full = true })
        × (slab ≡ n.slab)
        × (n.used_count ≡ per_slab)
  full_after slab (taken i lt unused lower at shape on) = absurd (cc)
  full_after slab (exhausted all nothing same) =
      let used_all : n.used_count ≡ per_slab =
        ok.used ∙ count_below_all n.slab.block_count (is_used n.slab) all ∙ ok.block_count_is in
      (
        rw same (record {
          slab_ok = ok.slab_ok;
          memory_at = ok.memory_at;
          block_size_is = ok.block_size_is;
          block_count_is = ok.block_count_is;
          total_is = ok.total_is;
          used = ok.used;
          flag = refl;
          no_room = inr used_all;
        }),
        same,
        used_all,
      )

  -- A slab that has no block left is full, and stays as it is.
  pub node_alloc_none :
      (slab : Slab)
      → slab_alloc n.slab ≡ (none, slab)
      → NodeOk size per_slab total true (record n { slab = slab; is_full = true })
        × (slab ≡ n.slab)
        × (n.used_count ≡ per_slab)
  node_alloc_none slab e = full_after slab (rw e at (slab_alloc-Allocs ok.slab_ok))

-- A node whose slab has taken back the block at `p`.
pub record Gave (size per_slab total : ℕ) (n n' : Node) (p : ℕ) : Type 0 where
  pub ok_after : NodeOk size per_slab total false n'
  pub was_out : 0 < node_blocks p n
  pub one_less : (q : ℕ) → node_blocks q n ≡ node_blocks q n' + one_if (q == p)
  pub count_less : n.used_count ≡ n'.used_count + 1
  pub same_place : (n'.addr ≡ n.addr) × (n'.raw_memory ≡ n.raw_memory)

turned_off :
    (i : ℕ) (f g : ℕ → Bool)
    → f i ≡ true
    → ((j : ℕ) → g j ≡ (if i == j then false else f j))
    → (j : ℕ) → f j ≡ (if i == j then true else g j)
turned_off i f g on h j = elim (ℕ_discrete i j) [
  | yes same ↦ rw (eq→== _ _ same, ← same) on
  | no other ↦ rw (ne→== _ _ other) (ground (arith, h j, ne→== _ _ other))
]

module _ {size per_slab total : ℕ} {on_full : Bool} {n : Node}
    (ok : NodeOk size per_slab total on_full n) where
  gave :
      (p : ℕ) (slab : Slab)
      → Releases n.slab p (true, slab)
      → IsValid slab
      → Gave size per_slab total n
          (record n { slab = slab; used_count = dec32 n.used_count; is_full = false })
          p
  gave p slab (freed i lt at_i was took_back shape off) v =
      let back = λ (j : ℕ). turned_off i (is_used n.slab) (is_used slab) was off j in
      let now : is_used slab i ≡ false = ground (arith, off i) in
      let less : n.used_count ≡ count_below slab.block_count (is_used slab) + 1 =
        rw (shape.2, ok.used)
          (count_below_on n.slab.block_count i (is_used slab) (is_used n.slab) lt now back) in
      let bound = count_below-le n.slab.block_count (is_used n.slab) in
      let exact : dec32 n.used_count ≡ n.used_count - 1 =
        omega (arith, ok.slab_ok.count_le, ok.used) in
      let at_t : block_at n.slab i ≡ block_at slab i = rw (shape.0, shape.1) in
      record {
        ok_after = record {
          slab_ok = v;
          memory_at = shape.0 ∙ ok.memory_at;
          block_size_is = shape.1 ∙ ok.block_size_is;
          block_count_is = shape.2 ∙ ok.block_count_is;
          total_is = ok.total_is;
          used = omega arith;
          flag = refl;
          no_room = inl refl;
        };
        was_out = rw at_i (slab_blocks_pos n.slab i lt was);
        one_less = λ q.
            rw (at_i, at_t)
              (slab_blocks_on q i slab n.slab v (rw shape.2 lt) now
                (sym shape.0, sym shape.1, sym shape.2, sym shape.3) back);
        count_less = omega arith;
        same_place = (refl, refl);
      }
  gave p slab (rejected none_there refused same) v = absurd (cc)

  -- A released block was handed out by this node, and is so once less.
  pub node_release_true :
      (p : ℕ) (slab : Slab)
      → p < 2 ^ 64
      → slab_release true n.slab p ≡ (true, slab)
      → Gave size per_slab total n
          (record n { slab = slab; used_count = dec32 n.used_count; is_full = false })
          p
  node_release_true p slab word e =
      gave p slab (rw e at (slab_release-Releases ok.slab_ok p word))
        (rw e at (slab_release-IsValid ok.slab_ok true p))

  kept :
      (p : ℕ) (slab : Slab)
      → Releases n.slab p (false, slab)
      → (slab ≡ n.slab) × (node_blocks p n ≡ 0)
  kept p slab (freed i lt at_i was took_back shape off) = absurd (cc)
  kept p slab (rejected none_there refused same) = (same, slab_blocks_none p n.slab none_there)

  -- A rejected pointer is no block that this node has handed out, and the slab stays as it is.
  pub node_release_false :
      (p : ℕ) (slab : Slab)
      → p < 2 ^ 64
      → slab_release true n.slab p ≡ (false, slab)
      → (slab ≡ n.slab) × (node_blocks p n ≡ 0)
  node_release_false p slab word e = kept p slab (rw e at (slab_release-Releases ok.slab_ok p word))
