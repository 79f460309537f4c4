-- ===== src/Memory/Multislab/Release/Outcome.antt =====
-- The whole of `cfiber_multislab_release`.
use cfiber.Common.{
  ℕ, ◌+◌, ◌^◌, ◌≤◌, ◌<◌, ◌≡◌, not, refl, ap, inl, inr, Bool, true, false, List, [], ◌∷◌, ◌++◌, none,
  some, arith, length, length-append, ◌==◌, one_if, Option-cases,
}
use cfiber.Memory.Slab.{Slab, slab_release}
use cfiber.Memory.Backing.{Backing, Laws}
use cfiber.Memory.Multislab.{
  Node, Multislab, Place, Owner, in_active, in_full, node_of, unlink, find_in, find_owning_slab,
  release_empty, release_from, release_in, multislab_release, dec32,
}
use cfiber.Memory.Multislab.Views.{
  sum_by, sum_by-append, All, All-left, All-right, All-append, node_blocks, handed_out,
  node_regions,
}
use cfiber.Memory.Multislab.Invariant.{
  Inv, KeepsReserve, NodeOk, Gave, node_release_true, node_release_false, find_in-some,
  find_in-none, in_node, nodes_elsewhere, alone, extent,
}
use cfiber.Memory.Multislab.Release.Swap.{relisted, relisted-Inv, relisted_less}
use cfiber.Memory.Multislab.Release.Hysteresis.{Settled, release_empty-Settled}

-- What `cfiber_multislab_release` may do with the pointer `p`.
pub data Released {b : Backing} (laws : Laws b) (base : ℕ → ℕ → Bool) (ms : Multislab)
    (st : b.State) (p : ℕ) (r : Multislab × b.State) : Type 0 where
  gave_back :
      0 < handed_out ms p
      → Inv laws base r.0 r.1
      → KeepsReserve r.0
      → ((q : ℕ) → handed_out ms q ≡ handed_out r.0 q + one_if (q == p))
      → Released laws base ms st p r
  ignored : handed_out ms p ≡ 0 → r ≡ (ms, st) → Released laws base ms st p r

in_node_bounds :
    (total p : ℕ) (n : Node)
    → n.raw_memory + total < 2 ^ 64
    → in_node total p n ≡ true
    → (n.raw_memory ≤ p) × (p < n.raw_memory + total)
in_node_bounds total p n fits e = ground arith

module _ {b : Backing} (laws : Laws b) (base : ℕ → ℕ → Bool) (ms : Multislab) (st : b.State) (p : ℕ)
    (inv : Inv laws base ms st) (kept : KeepsReserve ms) (word : p < 2 ^ 64) where
  -- The node at a place, when the address is in its memory: the rest of the lists has no such block.
  module _ (before : List Node) (n : Node) (after : List Node) (on_full : Bool) (other : List Node)
      (ok : All
        (NodeOk ms.block_size ms.blocks_per_slab ms.slab_memory_size on_full)
        (before ++ (n ∷ after)))
      (other_ok : All
        (NodeOk ms.block_size ms.blocks_per_slab ms.slab_memory_size (not on_full))
        other)
      (share : (q m : ℕ)
        → sum_by (node_regions ms.slab_memory_size q m) (before ++ (n ∷ after))
            + sum_by (node_regions ms.slab_memory_size q m) other
          ≤ one_if (laws.held st q m))
      (inside : in_node ms.slab_memory_size p n ≡ true) where
    n_ok : NodeOk ms.block_size ms.blocks_per_slab ms.slab_memory_size on_full n
    n_ok = (All-right _ before (n ∷ after) ok).0

    split :
        (f : Node → ℕ) → sum_by f (before ++ (n ∷ after)) ≡ sum_by f before + (f n + sum_by f after)
    split f = sum_by-append f before (n ∷ after)

    bounds : (n.raw_memory ≤ p) × (p < n.raw_memory + ms.slab_memory_size)
    bounds =
        in_node_bounds ms.slab_memory_size p n (omega (arith, extent n_ok, n_ok.slab_ok.fits))
          inside

    only_here :
        sum_by (node_blocks p) (before ++ (n ∷ after)) + sum_by (node_blocks p) other
        ≡ node_blocks p n
    only_here =
        let alone_in =
          alone laws st inv.sound ms.block_size ms.blocks_per_slab ms.slab_memory_size in
        let held = λ (q m : ℕ). split (node_regions ms.slab_memory_size q m) in
        omega (
          arith,
          split (node_blocks p),
          alone_in on_full p n before bounds.0 bounds.1 (All-left _ before (n ∷ after) ok)
              (λ q m. omega (arith, share q m, held q m)),
          alone_in on_full p n after bounds.0 bounds.1 (All-right _ before (n ∷ after) ok).1
              (λ q m. omega (arith, share q m, held q m)),
          alone_in (not on_full) p n other bounds.0 bounds.1 other_ok
              (λ q m. omega (arith, share q m, held q m)),
        )

  -- The freed node, and the multislab that the end of the release has settled.
  finish :
      (t : Multislab) (r : Multislab × b.State)
      → 0 < handed_out ms p
      → ((q : ℕ) → handed_out ms q ≡ handed_out t q + one_if (q == p))
      → Settled laws base t r
      → Released laws base ms st p r
  finish t r out less s =
      gave_back out s.well_formed s.reserve (λ q. omega (arith, less q, s.same_blocks q))

  -- A place in the active list.
  module _ (before : List Node) (n : Node) (after : List Node)
      (whole : before ++ (n ∷ after) ≡ ms.active)
      (inside : in_node ms.slab_memory_size p n ≡ true) where
    abbrev place_a : Place
    place_a = record { before = before; node = n; after = after }

    ok_a :
        All
          (NodeOk ms.block_size ms.blocks_per_slab ms.slab_memory_size false)
          (before ++ (n ∷ after))
    ok_a = rw whole inv.active_ok

    sum_a : (f : Node → ℕ) → sum_by f (before ++ (n ∷ after)) ≡ sum_by f ms.active
    sum_a f = ap (sum_by f) whole

    here_a : handed_out ms p ≡ node_blocks p n
    here_a = omega (
      arith,
      sum_a (node_blocks p),
      only_here before n after false ms.full ok_a inv.full_ok
          (λ q m. omega (arith, inv.accounts q m, sum_a (node_regions ms.slab_memory_size q m)))
          inside,
    )

    n_ok_a : NodeOk ms.block_size ms.blocks_per_slab ms.slab_memory_size false n
    n_ok_a = (All-right _ before (n ∷ after) ok_a).0

    abbrev freed_a : Slab → Node
    freed_a slab = record n { slab = slab; used_count = dec32 n.used_count; is_full = false }

    active_ok_a :
        (slab : Slab)
        → Gave ms.block_size ms.blocks_per_slab ms.slab_memory_size n (freed_a slab) p
        → All
            (NodeOk ms.block_size ms.blocks_per_slab ms.slab_memory_size false)
            (before ++ (freed_a slab ∷ after))
    active_ok_a slab give =
        All-append _ before (freed_a slab ∷ after) (All-left _ before (n ∷ after) ok_a)
          (give.ok_after, (All-right _ before (n ∷ after) ok_a).1)

    length_a :
        (slab : Slab)
        → length (before ++ (freed_a slab ∷ after)) + length ms.full
          ≡ length ms.active + length ms.full
    length_a slab = omega (
      arith,
      ap length whole,
      length-append before (n ∷ after),
      length-append before (freed_a slab ∷ after),
    )

    exchanged_a :
        (slab : Slab) (f : Node → ℕ)
        → sum_by f (before ++ (freed_a slab ∷ after)) + sum_by f ms.full + f n
          ≡ sum_by f ms.active + sum_by f ms.full + f (freed_a slab)
    exchanged_a slab f = omega (
      arith,
      sum_a f,
      sum_by-append f before (n ∷ after),
      sum_by-append f before (freed_a slab ∷ after),
    )

    node_same :
        (slab : Slab)
        → release_from b ms
            (in_active place_a)
            (record n { slab = slab; used_count = dec32 n.used_count })
            st
          ≡ release_empty b ms (in_active place_a) (freed_a slab) st
    unfolding release_from
    node_same slab =
        ap
          (λ (f : Bool).
            release_from b ms (in_active place_a)
              (record n { slab = slab; used_count = dec32 n.used_count; is_full = f }) st)
          n_ok_a.flag

    active_case :
        (r : Bool × Slab)
        → slab_release true n.slab p ≡ r
        → Released laws base ms st p (release_in b ms (in_active place_a) r st)
    unfolding release_in
    active_case (false, slab) e =
        let (same, none_here) = node_release_false n_ok_a p slab word e in
        rw (same, whole) (ignored (omega (arith, here_a)) refl)
    active_case (true, slab) e =
        let give = node_release_true n_ok_a p slab word e in
        rw (node_same slab) (
          finish (relisted ms (before ++ (freed_a slab ∷ after)) ms.full (freed_a slab)) _
            (omega (arith, here_a, give.was_out))
            (relisted_less laws base ms st inv n (freed_a slab) p give _ ms.full
              (active_ok_a slab give) inv.full_ok (length_a slab) (exchanged_a slab))
            (release_empty-Settled laws base ms st before after (freed_a slab)
              (relisted-Inv laws base ms st inv n (freed_a slab) p give _ ms.full
                (active_ok_a slab give) inv.full_ok (length_a slab) (exchanged_a slab))
              kept))

  -- A place in the full list: the node goes to the head of the active list.
  module _ (before : List Node) (n : Node) (after : List Node)
      (whole : before ++ (n ∷ after) ≡ ms.full)
      (inside : in_node ms.slab_memory_size p n ≡ true) where
    abbrev place_f : Place
    place_f = record { before = before; node = n; after = after }

    ok_f :
        All
          (NodeOk ms.block_size ms.blocks_per_slab ms.slab_memory_size true)
          (before ++ (n ∷ after))
    ok_f = rw whole inv.full_ok

    sum_f : (f : Node → ℕ) → sum_by f (before ++ (n ∷ after)) ≡ sum_by f ms.full
    sum_f f = ap (sum_by f) whole

    here_f : handed_out ms p ≡ node_blocks p n
    here_f = omega (
      arith,
      sum_f (node_blocks p),
      only_here before n after true ms.active ok_f inv.active_ok
          (λ q m. omega (arith, inv.accounts q m, sum_f (node_regions ms.slab_memory_size q m)))
          inside,
    )

    n_ok_f : NodeOk ms.block_size ms.blocks_per_slab ms.slab_memory_size true n
    n_ok_f = (All-right _ before (n ∷ after) ok_f).0

    abbrev freed_f : Slab → Node
    freed_f slab = record n { slab = slab; used_count = dec32 n.used_count; is_full = false }

    rest_ok :
        All (NodeOk ms.block_size ms.blocks_per_slab ms.slab_memory_size true) (before ++ after)
    rest_ok =
        All-append _ before after (All-left _ before (n ∷ after) ok_f)
          (All-right _ before (n ∷ after) ok_f).1

    length_f :
        (slab : Slab)
        → length (freed_f slab ∷ ms.active) + length (before ++ after)
          ≡ length ms.active + length ms.full
    length_f slab =
        omega (arith, ap length whole, length-append before (n ∷ after), length-append before after)

    exchanged_f :
        (slab : Slab) (f : Node → ℕ)
        → sum_by f (freed_f slab ∷ ms.active) + sum_by f (before ++ after) + f n
          ≡ sum_by f ms.active + sum_by f ms.full + f (freed_f slab)
    exchanged_f slab f =
        omega (arith, sum_f f, sum_by-append f before (n ∷ after), sum_by-append f before after)

    moved_same :
        (slab : Slab)
        → release_from b ms
            (in_full place_f)
            (record n { slab = slab; used_count = dec32 n.used_count })
            st
          ≡ release_empty b
              (unlink ms (in_full place_f))
              (in_active (record { before = []; node = freed_f slab; after = ms.active }))
              (freed_f slab)
              st
    unfolding release_from
    moved_same slab =
        ap
          (λ (f : Bool).
            release_from b ms (in_full place_f)
              (record n { slab = slab; used_count = dec32 n.used_count; is_full = f }) st)
          n_ok_f.flag

    full_case :
        (r : Bool × Slab)
        → slab_release true n.slab p ≡ r
        → Released laws base ms st p (release_in b ms (in_full place_f) r st)
    unfolding release_in
    full_case (false, slab) e =
        let (same, none_here) = node_release_false n_ok_f p slab word e in
        rw (same, whole) (ignored (omega (arith, here_f)) refl)
    full_case (true, slab) e =
        let give = node_release_true n_ok_f p slab word e in
        rw (moved_same slab) (
          finish (relisted ms (freed_f slab ∷ ms.active) (before ++ after) (freed_f slab)) _
            (omega (arith, here_f, give.was_out))
            (relisted_less laws base ms st inv n (freed_f slab) p give (freed_f slab ∷ ms.active)
              (before ++ after) (give.ok_after, inv.active_ok) rest_ok (length_f slab)
              (exchanged_f slab))
            (release_empty-Settled laws base (unlink ms (in_full place_f)) st [] ms.active
              (freed_f slab)
              (relisted-Inv laws base ms st inv n (freed_f slab) p give (freed_f slab ∷ ms.active)
                (before ++ after) (give.ok_after, inv.active_ok) rest_ok (length_f slab)
                (exchanged_f slab))
              kept))

  release_found :
      (owner : Owner)
      → find_owning_slab ms p ≡ some owner
      → multislab_release b ms p st
        ≡ release_in b ms owner (slab_release true (node_of owner).slab p) st
  unfolding multislab_release
  release_found owner e = rw (e, multislab_release)

  release_lost : find_owning_slab ms p ≡ none → multislab_release b ms p st ≡ (ms, st)
  unfolding multislab_release
  release_lost e = rw (e, multislab_release)

  lost_case :
      find_in ms.slab_memory_size p [] ms.active ≡ none
      → find_in ms.slab_memory_size p [] ms.full ≡ none
      → Released laws base ms st p (multislab_release b ms p st)
  unfolding find_owning_slab
  lost_case e f = rw (release_lost (ground arith)) (
      ignored
        (omega (
          arith,
          nodes_elsewhere _ _ _ false p ms.active inv.active_ok
              (find_in-none ms.slab_memory_size p [] ms.active e),
          nodes_elsewhere _ _ _ true p ms.full inv.full_ok
              (find_in-none ms.slab_memory_size p [] ms.full f),
        ))
        refl)

  active_found :
      (place : Place)
      → find_in ms.slab_memory_size p [] ms.active ≡ some place
      → Released laws base ms st p (multislab_release b ms p st)
  unfolding find_owning_slab
  active_found place e =
      let (whole, inside) = find_in-some ms.slab_memory_size p [] ms.active place e in
      rw (release_found (in_active place) (ground arith))
        (active_case place.before place.node place.after whole inside _ refl)

  full_found :
      (place : Place)
      → find_in ms.slab_memory_size p [] ms.active ≡ none
      → find_in ms.slab_memory_size p [] ms.full ≡ some place
      → Released laws base ms st p (multislab_release b ms p st)
  unfolding find_owning_slab
  full_found place e f =
      let (whole, inside) = find_in-some ms.slab_memory_size p [] ms.full place f in
      rw (release_found (in_full place) (ground arith))
        (full_case place.before place.node place.after whole inside _ refl)

  released : Released laws base ms st p (multislab_release b ms p st)
  released = elim (Option-cases (find_in ms.slab_memory_size p [] ms.active)) [
    | inr (place, e) ↦ active_found place e
    | inl e ↦ elim (Option-cases (find_in ms.slab_memory_size p [] ms.full)) [
      | inr (place, f) ↦ full_found place e f
      | inl f ↦ lost_case e f
    ]
  ]

-- On a well-formed multislab that keeps its reserve, `cfiber_multislab_release` keeps both. An
-- address that is handed out is handed out once less, and nothing else changes hands; for any other
-- address the call changes neither the multislab nor the memory.
pub multislab_release-Released :
    {b : Backing} (laws : Laws b) (base : ℕ → ℕ → Bool) (ms : Multislab) (st : b.State) (p : ℕ)
    → Inv laws base ms st
    → KeepsReserve ms
    → p < 2 ^ 64
    → Released laws base ms st p (multislab_release b ms p st)
multislab_release-Released laws base ms st p inv kept word =
    released laws base ms st p inv kept word
