-- ===== src/Memory/Multislab.antt =====
-- The multislab of include/cfiber/memory/multislab_alloc.h and src/cfiber/memory/multislab_alloc.c:
-- a chain of slabs that grows on demand and gives empty slabs back.
-- The two intrusive lists are lists of nodes, in the order of their `next` links, and a pointer to a
-- node is its place in its list: `list_push` is `∷` and `list_unlink` takes a node out.
pub mod Views
pub mod Invariant
pub mod Alloc
pub mod Release
pub mod Lifetime
pub mod Words
mod Examples
use cfiber.Common.{
  ℕ, zero, suc, ◌+◌, ◌-◌, ◌*◌, ◌/◌, ◌%◌, ◌^◌, Bool, true, false, not, ◌&&◌, ◌||◌, List, [], ◌∷◌,
  ◌++◌, Option, none, some, ltb, leb, ◌==◌, ◌!=◌, if◌then◌else◌,
}
use cfiber.Core.{cache_line_size, slab_max_blocks, u32, u64}
use cfiber.Memory.Slab.{Slab, slab_init, slab_alloc, slab_release}
use cfiber.Memory.Backing.{Backing}

-- `cfiber_slab_node_t`, with its own address. `next` and `prev` are its place in a list.
pub record Node : Type 0 where
  pub addr : ℕ
  pub slab : Slab
  pub used_count : ℕ
  pub is_full : Bool
  pub raw_memory : ℕ

-- `sizeof(cfiber_slab_node_t)`
abbrev pub node_size : ℕ
node_size = 128

-- `cfiber_multislab_t`, without the callbacks of the backing allocator.
pub record Multislab : Type 0 where
  pub active : List Node
  pub full : List Node
  pub block_size : ℕ
  pub blocks_per_slab : ℕ
  pub slab_memory_size : ℕ
  pub slab_count : ℕ
  pub max_slabs : ℕ
  pub empty_count : ℕ
  pub max_empty_reserve : ℕ

-- `++` and `--` on `uint32_t`
abbrev pub inc32 : ℕ → ℕ
inc32 n = u32 (n + 1)

abbrev pub dec32 : ℕ → ℕ
dec32 n = u32 (n + 2 ^ 32 - 1)

-- The callbacks are those of the backing; here it matters only whether they are there.
unfoldable pub multislab_init_ext : ℕ → ℕ → ℕ → ℕ → Bool → Bool → Option Multislab
multislab_init_ext block_size blocks_per_slab max_slabs hysteresis_threshold mem_alloc mem_free =
    if ltb block_size cache_line_size
      || block_size % cache_line_size != 0
      || blocks_per_slab == 0
      || ltb slab_max_blocks blocks_per_slab
      || ltb ((2 ^ 64 - 1) / block_size) blocks_per_slab
      || not mem_alloc
      || not mem_free
    then none
    else some (record {
      active = [];
      full = [];
      block_size = block_size;
      blocks_per_slab = blocks_per_slab;
      slab_memory_size = u64 (block_size * blocks_per_slab);
      slab_count = 0;
      max_slabs = max_slabs;
      empty_count = 0;
      max_empty_reserve = hysteresis_threshold;
    })

-- The `while` loop of `cfiber_multislab_alloc`: the block, and the active and the full list after
-- it. A slab that has no block left goes over to the full list.
unfoldable pub alloc_active : List Node → List Node → Option ℕ × List Node × List Node
alloc_active [] full = (none, [], full)
alloc_active (n ∷ rest) full =
    let (ptr, slab) = slab_alloc n.slab in
    let next = alloc_active rest (record n { slab = slab; is_full = true } ∷ full) in
    elim ptr [ some p ↦ (some p, record n { slab = slab } ∷ rest, full) | none ↦ next ]

-- `ptr = cfiber_slab_alloc(&ms->active->slab)` after `multislab_grow`.
unfoldable pub alloc_head : List Node → Option ℕ × List Node
alloc_head [] = (none, [])
alloc_head (n ∷ rest) =
    let (ptr, slab) = slab_alloc n.slab in (ptr, record n { slab = slab } ∷ rest)

-- `if (node->used_count++ == 0) { ms->empty_count--; }` on the head of the active list.
unfoldable pub use_head : List Node → ℕ → List Node × ℕ
use_head [] empty_count = ([], empty_count)
use_head (n ∷ rest) empty_count = (
  record n { used_count = inc32 n.used_count } ∷ rest,
  if n.used_count == 0 then dec32 empty_count else empty_count,
)

unfoldable pub use_active : Multislab → Multislab
unfolding use_head
use_active ms =
    let (active, empty_count) = use_head ms.active ms.empty_count in
    record ms { active = active; empty_count = empty_count }

-- A node, between those before and after it in its list.
pub record Place : Type 0 where
  pub before : List Node
  pub node : Node
  pub after : List Node

-- One loop of `find_owning_slab`, from a node on; `before` are the nodes already passed, in order.
unfoldable pub find_in : ℕ → ℕ → List Node → List Node → Option Place
find_in size p before [] = none
find_in size p before (n ∷ after) =
    let rest = find_in size p (before ++ (n ∷ [])) after in
    if leb n.raw_memory p && ltb p (u64 (n.raw_memory + size))
    then some (record { before = before; node = n; after = after })
    else rest

-- `find_owning_slab`: a place in the active or in the full list.
pub data Owner : Type 0 where
  in_active in_full : Place → Owner

unfoldable pub find_owning_slab : Multislab → ℕ → Option Owner
unfolding find_in
find_owning_slab ms p = elim (find_in ms.slab_memory_size p [] ms.active) [
  | some place ↦ some (in_active place)
  | none ↦ elim (find_in ms.slab_memory_size p [] ms.full) [
    | some place ↦ some (in_full place)
    | none ↦ none
  ]
]

-- A write through the pointer to a node.
abbrev pub list_of : Place → List Node
list_of place = place.before ++ (place.node ∷ place.after)

abbrev pub store : Multislab → Owner → Node → Multislab
store ms (in_active place) node = record ms { active = list_of (record place { node = node }) }
store ms (in_full place) node = record ms { full = list_of (record place { node = node }) }

-- `list_unlink` of that node, from the list that it is on.
abbrev pub unlink : Multislab → Owner → Multislab
unlink ms (in_active place) = record ms { active = place.before ++ place.after }
unlink ms (in_full place) = record ms { full = place.before ++ place.after }

abbrev pub node_of : Owner → Node
node_of (in_active place) = place.node
node_of (in_full place) = place.node

abbrev pub zeroed : Multislab
zeroed = record {
  active = [];
  full = [];
  block_size = 0;
  blocks_per_slab = 0;
  slab_memory_size = 0;
  slab_count = 0;
  max_slabs = 0;
  empty_count = 0;
  max_empty_reserve = 0;
}

module _ (b : Backing) where
  open b use {State, mem_alloc, mem_free}

  unfoldable pub multislab_free_node : Multislab → Node → State → State
  multislab_free_node ms node st =
      mem_free node.addr node_size (mem_free node.raw_memory ms.slab_memory_size st)

  -- The part of `multislab_grow` after the node and the slab's memory are there.
  unfoldable pub grow_with : Multislab → ℕ → ℕ → State → Bool × Multislab × State
  grow_with ms node mem st = elim (slab_init ms.block_size mem ms.slab_memory_size) [
    | none ↦ (false, ms, mem_free node node_size (mem_free mem ms.slab_memory_size st))
    | some slab ↦
        let fresh : Node = record {
          addr = node;
          slab = slab;
          used_count = 0;
          is_full = false;
          raw_memory = mem;
        } in
        (
          true,
          record ms {
            active = fresh ∷ ms.active;
            slab_count = inc32 ms.slab_count;
            empty_count = inc32 ms.empty_count;
          },
          st,
        )
  ]

  -- The same, from the result of the second `mem_alloc` on.
  unfoldable pub grow_memory : Multislab → ℕ → Option ℕ × State → Bool × Multislab × State
  unfolding grow_with
  grow_memory ms node (none, st) = (false, ms, mem_free node node_size st)
  grow_memory ms node (some mem, st) = grow_with ms node mem st

  -- From the result of the first.
  unfoldable pub grow_node : Multislab → Option ℕ × State → Bool × Multislab × State
  unfolding grow_memory
  grow_node ms (none, st) = (false, ms, st)
  grow_node ms (some node, st) = grow_memory ms node (mem_alloc ms.slab_memory_size st)

  unfoldable pub multislab_grow : Multislab → State → Bool × Multislab × State
  unfolding grow_node
  multislab_grow ms st =
      if ms.max_slabs != 0 && leb ms.max_slabs ms.slab_count
      then (false, ms, st)
      else grow_node ms (mem_alloc node_size st)

  -- The end of `cfiber_multislab_alloc` for a call that had to grow.
  unfoldable pub alloc_grown : Bool × Multislab × State → Option ℕ × Multislab × State
  unfolding alloc_head use_active
  alloc_grown (false, ms, st) = (none, ms, st)
  alloc_grown (true, ms, st) =
      let (ptr, active) = alloc_head ms.active in
      (ptr, use_active (record ms { active = active }), st)

  -- What follows the loop of `cfiber_multislab_alloc`.
  unfoldable pub alloc_after : Option ℕ → Multislab → State → Option ℕ × Multislab × State
  unfolding multislab_grow alloc_grown
  alloc_after (some p) ms st = (some p, use_active ms, st)
  alloc_after none ms st = alloc_grown (multislab_grow ms st)

  unfoldable pub multislab_alloc : Multislab → State → Option ℕ × Multislab × State
  unfolding alloc_active alloc_after
  multislab_alloc ms st =
      let (ptr, active, full) = alloc_active ms.active ms.full in
      alloc_after ptr (record ms { active = active; full = full }) st

  -- The end of `cfiber_multislab_release`: hysteresis. `node` is what the place now holds.
  unfoldable pub release_empty : Multislab → Owner → Node → State → Multislab × State
  unfolding multislab_free_node
  release_empty ms owner node st =
      let empty_count = inc32 ms.empty_count in
      if node.used_count != 0
      then (store ms owner node, st)
      else if ltb ms.max_empty_reserve empty_count && ltb 1 ms.slab_count
      then (
        record (unlink ms owner) {
          slab_count = dec32 ms.slab_count;
          empty_count = dec32 empty_count;
        },
        multislab_free_node ms node st,
      )
      else (record (store ms owner node) { empty_count = empty_count }, st)

  -- After the block is back in its slab: a node whose `is_full` is set goes to the head of the
  -- active list.
  unfoldable pub release_from : Multislab → Owner → Node → State → Multislab × State
  unfolding release_empty
  release_from ms owner node st =
      let rest = unlink ms owner in
      let node1 = record node { is_full = false } in
      if node.is_full
      then release_empty rest
          (in_active (record { before = []; node = node1; after = rest.active })) node1 st
      else release_empty ms owner node st

  -- From the result of `cfiber_slab_release` on. A rejected release leaves the counts alone.
  unfoldable pub release_in : Multislab → Owner → Bool × Slab → State → Multislab × State
  unfolding release_from
  release_in ms owner (true, slab) st =
      let node = node_of owner in
      release_from ms owner (record node { slab = slab; used_count = dec32 node.used_count }) st
  release_in ms owner (false, slab) st =
      (store ms owner (record (node_of owner) { slab = slab }), st)

  unfoldable pub multislab_release : Multislab → ℕ → State → Multislab × State
  unfolding release_in
  multislab_release ms ptr st = elim (find_owning_slab ms ptr) [
    | none ↦ (ms, st)
    | some owner ↦ release_in ms owner (slab_release true (node_of owner).slab ptr) st
  ]

  unfoldable pub free_node_list : Multislab → List Node → State → State
  free_node_list ms [] st = st
  free_node_list ms (head ∷ next) st = free_node_list ms next (multislab_free_node ms head st)

  -- The structure is zeroed.
  unfoldable pub multislab_destroy : Multislab → State → Multislab × State
  unfolding free_node_list
  multislab_destroy ms st = (zeroed, free_node_list ms ms.full (free_node_list ms ms.active st))
