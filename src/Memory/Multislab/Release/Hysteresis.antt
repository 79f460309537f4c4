-- ===== src/Memory/Multislab/Release/Hysteresis.antt =====
-- The end of `cfiber_multislab_release`: an empty slab is given back when there are more of them
-- than the reserve.
use cfiber.Common.{
  ℕ, zero, suc, ◌+◌, ◌-◌, ◌≤◌, ◌<◌, ◌≡◌, refl, subst, inl, inr, Bool, false, ◌&&◌, List, ◌∷◌, ◌++◌,
  arith, length-append, ◌!=◌, ltb, one_if, Bool-cases,
}
use cfiber.Memory.Slab.{Slab}
use cfiber.Memory.Slab.Invariant.{is_used}
use cfiber.Memory.Slab.Count.{count_below}
use cfiber.Memory.Slab.Blocks.{is_block}
use cfiber.Memory.Backing.{Backing, Laws}
use cfiber.Memory.Multislab.{
  Node, Multislab, Place, in_active, release_empty, multislab_free_node, inc32, dec32,
}
use cfiber.Memory.Multislab.Views.{
  sum_by, sum_by-append, All-left, All-right, All-append, node_blocks, handed_out, is_empty,
  node_regions,
}
use cfiber.Memory.Multislab.Invariant.{Inv, KeepsReserve, NodeOk}
use cfiber.Memory.Multislab.Alloc.Step.{is_empty-sum_le}
use cfiber.Memory.Multislab.Release.Free.{free_node-Sound, free_node-held}
use cfiber.Memory.Multislab.Release.Swap.{relisted}

blocks-le-used : (n q : ℕ) (s : Slab) → count_below n (is_block q s) ≤ count_below n (is_used s)
unfolding count_below
blocks-le-used zero q s = omega arith
blocks-le-used (suc n) q s = ground (arith, blocks-le-used n q s)

-- An empty node has no block handed out.
pub empty_blocks :
    {size per_slab total : ℕ} {on_full : Bool} {n : Node} (q : ℕ)
    → NodeOk size per_slab total on_full n
    → n.used_count ≡ 0
    → node_blocks q n ≡ 0
empty_blocks {n = n} q ok e = omega (arith, blocks-le-used n.slab.block_count q n.slab, ok.used)

-- What the end of a release makes of the multislab `t`.
pub record Settled {b : Backing} (laws : Laws b) (base : ℕ → ℕ → Bool) (t : Multislab)
    (r : Multislab × b.State) : Type 0 where
  pub well_formed : Inv laws base r.0 r.1
  pub same_blocks : (q : ℕ) → handed_out r.0 q ≡ handed_out t q
  pub reserve : KeepsReserve r.0

module _ {b : Backing} (laws : Laws b) (base : ℕ → ℕ → Bool) (ms : Multislab) (st : b.State)
    (before after : List Node) (n : Node)
    (inv : Inv laws base (relisted ms (before ++ (n ∷ after)) ms.full n) st)
    (kept : KeepsReserve ms) where
  abbrev pub place : Place
  place = record { before = before; node = n; after = after }

  abbrev pub settled : Multislab
  settled = relisted ms (before ++ (n ∷ after)) ms.full n

  n_ok : NodeOk ms.block_size ms.blocks_per_slab ms.slab_memory_size false n
  n_ok = (All-right _ before (n ∷ after) inv.active_ok).0

  split : (f : Node → ℕ) → sum_by f (before ++ (n ∷ after)) ≡ sum_by f (before ++ after) + f n
  split f = omega (arith, sum_by-append f before (n ∷ after), sum_by-append f before after)

  share : (q m : ℕ) → node_regions ms.slab_memory_size q m n ≤ one_if (laws.held st q m)
  share q m = omega (arith, inv.accounts q m, split (node_regions ms.slab_memory_size q m))

  -- the slab is given back
  abbrev given_back : Multislab
  given_back = record ms {
    active = before ++ after;
    slab_count = dec32 ms.slab_count;
    empty_count = dec32 (inc32 ms.empty_count);
  }

  small_count : ms.empty_count + is_empty n ≤ ms.slab_count
  small_count = omega (
    arith,
    inv.empties_counted,
    inv.counted,
    is_empty-sum_le (before ++ (n ∷ after)),
    is_empty-sum_le ms.full,
  )

  given_back-Inv :
      n.used_count ≡ 0
      → 1 < ms.slab_count
      → Inv laws base given_back (multislab_free_node b ms n st)
  given_back-Inv e more =
      let bound = inv.small in
      let is_one : is_empty n ≡ 1 = ground arith in
      let fewer : dec32 ms.slab_count ≡ ms.slab_count - 1 = omega arith in
      let back : dec32 (inc32 ms.empty_count) ≡ ms.empty_count = omega (arith, small_count) in
      record {
        block_pos = inv.block_pos;
        per_slab_pos = inv.per_slab_pos;
        per_slab_le = inv.per_slab_le;
        memory_size = inv.memory_size;
        line_multiple = inv.line_multiple;
        active_ok =
            All-append _ before after (All-left _ before (n ∷ after) inv.active_ok)
              (All-right _ before (n ∷ after) inv.active_ok).1;
        full_ok = inv.full_ok;
        counted =
            omega
              (arith, inv.counted, length-append before (n ∷ after), length-append before after);
        small = omega arith;
        limited = grind (arith, inv.limited);
        empties_counted = omega (arith, inv.empties_counted, split is_empty);
        sound = free_node-Sound laws ms n st inv.sound share;
        accounts = λ q m. omega (
          arith,
          inv.accounts q m,
          split (node_regions ms.slab_memory_size q m),
          free_node-held laws ms n st inv.sound share q m,
        );
      }

  -- The tests of `cfiber_multislab_release`: the node is not empty, is given back, or is kept.
  pub release_empty-Settled : Settled laws base settled (release_empty b ms (in_active place) n st)
  unfolding release_empty
  release_empty-Settled = elim (Bool-cases (n.used_count != 0)) [
    | inl busy ↦
        let none_empty : ms.empty_count + is_empty n ≡ ms.empty_count = ground arith in
        rw busy (
          subst
            (λ (k : ℕ).
              Settled laws base settled
                (record ms { active = before ++ (n ∷ after); empty_count = k }, st))
            none_empty
            (record { well_formed = inv; same_blocks = λ q. refl; reserve = ground arith }))
    | inr idle ↦
        let empty : n.used_count ≡ 0 = ground arith in
        let is_one : is_empty n ≡ 1 = ground arith in
        let bound = inv.small in
        let count : ms.empty_count + is_empty n ≡ inc32 ms.empty_count =
          omega (arith, small_count) in
        elim (Bool-cases (ltb ms.max_empty_reserve (inc32 ms.empty_count) && ltb 1 ms.slab_count)) [
          | inl over ↦
              rw (idle, over)
                (record {
                  well_formed = given_back-Inv empty (ground arith);
                  same_blocks =
                      λ q. omega (arith, split (node_blocks q), empty_blocks q n_ok empty);
                  reserve = ground (arith, small_count);
                })
          | inr keep ↦
              rw (idle, keep)
                (subst
                  (λ (k : ℕ).
                    Settled laws base settled
                      (record ms { active = before ++ (n ∷ after); empty_count = k }, st))
                  count
                  (record { well_formed = inv; same_blocks = λ q. refl; reserve = ground arith }))
        ]
  ]
