-- ===== src/Memory/Multislab/Alloc/Scan.antt =====
-- The `while` loop of `cfiber_multislab_alloc`: it stops at the first node of the active list whose
-- slab has a block, and has moved those before it to the full list.
use cfiber.Common.{
  ℕ, ◌+◌, ◌≡◌, refl, ap, inl, inr, true, false, List, [], ◌∷◌, ◌++◌, Option, none, some, arith,
  length, Option-cases,
}
use cfiber.Memory.Slab.{Slab, slab_alloc}
use cfiber.Memory.Multislab.{Node, alloc_active}
use cfiber.Memory.Multislab.Views.{sum_by, All}
use cfiber.Memory.Multislab.Invariant.{NodeOk, node_alloc_none}

-- The full list, after these nodes have been pushed on it in turn.
abbrev pub push_full : List Node → List Node → List Node
push_full [] full = full
push_full (n ∷ ns) full = push_full ns (record n { is_full = true } ∷ full)

-- A quantity that does not depend on the flag.
pub sum_by-push_full :
    (f : Node → ℕ) (xs full : List Node)
    → ((n : Node) → f (record n { is_full = true }) ≡ f n)
    → sum_by f (push_full xs full) ≡ sum_by f xs + sum_by f full
sum_by-push_full f [] full same = omega arith
sum_by-push_full f (n ∷ xs) full same =
    omega (arith, same n, sum_by-push_full f xs (record n { is_full = true } ∷ full) same)

pub length-push_full : (xs full : List Node) → length (push_full xs full) ≡ length xs + length full
length-push_full [] full = omega arith
length-push_full (n ∷ xs) full =
    omega (arith, length-push_full xs (record n { is_full = true } ∷ full))

alloc_active-some :
    (n : Node) (active full : List Node) (p : ℕ) (slab : Slab)
    → slab_alloc n.slab ≡ (some p, slab)
    → alloc_active (n ∷ active) full ≡ (some p, record n { slab = slab } ∷ active, full)
unfolding alloc_active
alloc_active-some n active full p slab e = ground arith

alloc_active-none :
    (n : Node) (active full : List Node) (slab : Slab)
    → slab_alloc n.slab ≡ (none, slab)
    → alloc_active (n ∷ active) full
      ≡ alloc_active active (record n { slab = slab; is_full = true } ∷ full)
unfolding alloc_active
alloc_active-none n active full slab e = ground arith

module _ (size per_slab total : ℕ) where
  pub push_full-ok :
      (xs full : List Node)
      → All (λ n. NodeOk size per_slab total true (record n { is_full = true })) xs
      → All (NodeOk size per_slab total true) full
      → All (NodeOk size per_slab total true) (push_full xs full)
  push_full-ok [] full h k = k
  push_full-ok (n ∷ xs) full h k = push_full-ok xs (record n { is_full = true } ∷ full) h.1 (h.0, k)

  -- Nodes that can go over to the full list.
  abbrev pub AreFull : List Node → Type 0
  AreFull = All (λ n. NodeOk size per_slab total true (record n { is_full = true }))

  pub data Scan (active full : List Node) (r : Option ℕ × List Node × List Node) : Type 0 where
    stopped :
        (moved : List Node) (n : Node) (rest : List Node) (p : ℕ) (slab : Slab)
        → active ≡ moved ++ (n ∷ rest)
        → AreFull moved
        → slab_alloc n.slab ≡ (some p, slab)
        → r ≡ (some p, record n { slab = slab } ∷ rest, push_full moved full)
        → Scan active full r
    drained : AreFull active → r ≡ (none, [], push_full active full) → Scan active full r

  Scan-more :
      (n : Node) (active full : List Node) (r : Option ℕ × List Node × List Node)
      → NodeOk size per_slab total true (record n { is_full = true })
      → Scan active (record n { is_full = true } ∷ full) r
      → Scan (n ∷ active) full r
  Scan-more n active full r h (stopped moved m rest p slab whole are e result) =
      stopped (n ∷ moved) m rest p slab (ap (◌∷◌ n) whole) (h, are) e result
  Scan-more n active full r h (drained are result) = drained (h, are) result

  pub alloc_active-Scan :
      (active full : List Node)
      → All (NodeOk size per_slab total false) active
      → Scan active full (alloc_active active full)
  unfolding alloc_active
  alloc_active-Scan [] full ok = drained tt refl
  alloc_active-Scan (n ∷ active) full ok = elim (Option-cases (slab_alloc n.slab).0) [
    | inl e ↦
        let (moves, same, all_used) = node_alloc_none ok.0 (slab_alloc n.slab).1 (ground arith) in
        rw (alloc_active-none n active full (slab_alloc n.slab).1 (ground arith), same)
          (Scan-more n active full _ (rw same at moves)
            (alloc_active-Scan active (record n { is_full = true } ∷ full) ok.1))
    | inr (p, e) ↦
        rw (alloc_active-some n active full p (slab_alloc n.slab).1 (ground arith))
          (stopped [] n active p (slab_alloc n.slab).1 refl tt (ground arith) refl)
  ]
