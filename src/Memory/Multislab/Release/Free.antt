-- ===== src/Memory/Multislab/Release/Free.antt =====
-- `multislab_free_node` gives the two regions of a node back, and nothing else.
use cfiber.Common.{ℕ, ◌+◌, ◌≤◌, ◌≡◌, true, false, arith, if◌then◌else◌, one_if}
use cfiber.Memory.Backing.{Backing, Laws, same_region}
use cfiber.Memory.Multislab.{Node, Multislab, multislab_free_node, node_size}
use cfiber.Memory.Multislab.Views.{node_regions}

module _ {b : Backing} (laws : Laws b) (ms : Multislab) (n : Node) (st : b.State)
    (sound : laws.Sound st)
    (share : (q m : ℕ) → node_regions ms.slab_memory_size q m n ≤ one_if (laws.held st q m)) where
  abbrev st1 : b.State
  st1 = b.mem_free n.raw_memory ms.slab_memory_size st

  raw_held : laws.held st n.raw_memory ms.slab_memory_size ≡ true
  raw_held = ground (arith, share n.raw_memory ms.slab_memory_size)

  differ : same_region n.addr node_size n.raw_memory ms.slab_memory_size ≡ false
  differ = ground (arith, share n.addr node_size, share n.raw_memory ms.slab_memory_size)

  held1 :
      (q m : ℕ)
      → laws.held st1 q m
        ≡ (if same_region q m n.raw_memory ms.slab_memory_size then false else laws.held st q m)
  held1 q m = laws.free_held n.raw_memory ms.slab_memory_size st q m sound raw_held

  sound1 : laws.Sound st1
  sound1 = laws.free-Sound n.raw_memory ms.slab_memory_size st raw_held sound

  node_held : laws.held st1 n.addr node_size ≡ true
  node_held = ground (arith, share n.addr node_size, held1 n.addr node_size, differ)

  pub free_node-Sound : laws.Sound (multislab_free_node b ms n st)
  unfolding multislab_free_node
  free_node-Sound = laws.free-Sound n.addr node_size st1 node_held sound1

  pub free_node-held :
      (q m : ℕ)
      → one_if (laws.held (multislab_free_node b ms n st) q m)
          + node_regions ms.slab_memory_size q m n
        ≡ one_if (laws.held st q m)
  unfolding multislab_free_node
  free_node-held q m =
      ground (arith, laws.free_held n.addr node_size st1 q m sound1 node_held, held1 q m, share q m)
