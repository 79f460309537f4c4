-- ===== src/Reactor/Inv/Taking.antt =====
-- A fiber that takes a descriptor, or fails to, keeps the map and the fibers in agreement.
use cfiber.Common.{
  ℕ, ◌<◌, ◌≡◌, ◌≢◌, ◌∙◌, ap, arith, true, false, none, some, ◌==◌, Bool-cases, inl, inr,
}
use cfiber.Reactor.Timers.{write}
use cfiber.Reactor.State.{Os, Reactor}
use cfiber.Reactor.Owner.{hold_fd, forget_fd}
use cfiber.Reactor.Census.{is_used}
use cfiber.Reactor.Inv.{Owned}

pub some_inj : (k m : ℕ) → some k ≡ some m → k ≡ m
some_inj k m e = cc (e)

-- A fiber is about to hold a descriptor: only the map's entry for that descriptor may be wrong.
pub record Taking {os : Os} (s : Reactor os) (f fd : ℕ) : Type 0 where
  pub in_map : (g d : ℕ) → s.reg_fd g ≡ some d → s.fd_owner d ≡ some g
  pub in_fiber : (d g : ℕ) → s.fd_owner d ≡ some g → d ≢ fd → s.reg_fd g ≡ some d
  pub in_range : (d g : ℕ) → s.fd_owner d ≡ some g → d < s.fd_owner_cap
  pub by_used : (g d : ℕ) → s.reg_fd g ≡ some d → is_used (s.state g) ≡ true
  pub alone : (g : ℕ) → s.reg_fd g ≡ some fd → g ≡ f
  pub only : (d : ℕ) → s.reg_fd f ≡ some d → d ≡ fd
  pub room : fd < s.fd_owner_cap
  pub used : is_used (s.state f) ≡ true

pub hold_fd-Owned : {os : Os} (s : Reactor os) (f fd : ℕ) → Taking s f fd → Owned (hold_fd s f fd)
unfolding hold_fd
hold_fd-Owned s f fd k = record {
  in_map = in_map;
  in_fiber = in_fiber;
  in_range = in_range;
  by_used = by_used;
}
  where
    in_map :
        (g d : ℕ) → write s.reg_fd f (some fd) g ≡ some d → write s.fd_owner fd (some f) d ≡ some g
    in_map g d h = elim (Bool-cases (g == f)) [
      | inl same ↦
          let q : some fd ≡ some d = rw same at h in
          let e = some_inj fd d q in
          let flag : (d == fd) ≡ true = ground (arith, e) in
          let e' : f ≡ g = ground (arith, same) in rw flag (ap some e')
      | inr other ↦
          let old : s.reg_fd g ≡ some d = rw other at h in
          let off : (d == fd) ≡ false = elim (Bool-cases (d == fd)) [
            | inl at_fd ↦
                let e : d ≡ fd = ground (arith, at_fd) in
                let q = k.alone g (old ∙ ap some e) in absurd (ground (arith, q, other))
            | inr off ↦ off
          ] in
          rw off (k.in_map g d old)
    ]

    in_fiber :
        (d g : ℕ) → write s.fd_owner fd (some f) d ≡ some g → write s.reg_fd f (some fd) g ≡ some d
    in_fiber d g h = elim (Bool-cases (d == fd)) [
      | inl same ↦
          let q : some f ≡ some g = rw same at h in
          let e = some_inj f g q in
          let flag : (g == f) ≡ true = ground (arith, e) in
          let e' : fd ≡ d = ground (arith, same) in rw flag (ap some e')
      | inr other ↦
          let old : s.fd_owner d ≡ some g = rw other at h in
          let reg = k.in_fiber d g old (λ q. ground (arith, q, other)) in
          let off : (g == f) ≡ false = elim (Bool-cases (g == f)) [
            | inl at_f ↦
                let e : f ≡ g = ground (arith, at_f) in
                let q = k.only d (ap s.reg_fd e ∙ reg) in absurd (ground (arith, q, other))
            | inr off ↦ off
          ] in
          rw off reg
    ]

    in_range : (d g : ℕ) → write s.fd_owner fd (some f) d ≡ some g → d < s.fd_owner_cap
    in_range d g h = elim (Bool-cases (d == fd)) [
      | inl same ↦ ground (arith, same, k.room)
      | inr other ↦ k.in_range d g (rw other at h)
    ]

    by_used : (g d : ℕ) → write s.reg_fd f (some fd) g ≡ some d → is_used (s.state g) ≡ true
    by_used g d h = elim (Bool-cases (g == f)) [
      | inl same ↦
          let e : g ≡ f = ground (arith, same) in ap (λ (x : ℕ). is_used (s.state x)) e ∙ k.used
      | inr other ↦ k.by_used g d (rw other at h)
    ]

pub forget_fd-Owned :
    {os : Os} (s : Reactor os) (f fd : ℕ) → Taking s f fd → Owned (forget_fd s f fd)
unfolding forget_fd
forget_fd-Owned s f fd k = record {
  in_map = in_map;
  in_fiber = in_fiber;
  in_range = in_range;
  by_used = by_used;
}
  where
    in_map : (g d : ℕ) → write s.reg_fd f none g ≡ some d → write s.fd_owner fd none d ≡ some g
    in_map g d h = elim (Bool-cases (g == f)) [
      | inl same ↦ let bad : none ≡ some d = rw same at h in absurd (cc (bad))
      | inr other ↦
          let old : s.reg_fd g ≡ some d = rw other at h in
          let off : (d == fd) ≡ false = elim (Bool-cases (d == fd)) [
            | inl at_fd ↦
                let e : d ≡ fd = ground (arith, at_fd) in
                let q = k.alone g (old ∙ ap some e) in absurd (ground (arith, q, other))
            | inr off ↦ off
          ] in
          rw off (k.in_map g d old)
    ]

    in_fiber : (d g : ℕ) → write s.fd_owner fd none d ≡ some g → write s.reg_fd f none g ≡ some d
    in_fiber d g h = elim (Bool-cases (d == fd)) [
      | inl same ↦ let bad : none ≡ some g = rw same at h in absurd (cc (bad))
      | inr other ↦
          let old : s.fd_owner d ≡ some g = rw other at h in
          let reg = k.in_fiber d g old (λ q. ground (arith, q, other)) in
          let off : (g == f) ≡ false = elim (Bool-cases (g == f)) [
            | inl at_f ↦
                let e : f ≡ g = ground (arith, at_f) in
                let q = k.only d (ap s.reg_fd e ∙ reg) in absurd (ground (arith, q, other))
            | inr off ↦ off
          ] in
          rw off reg
    ]

    in_range : (d g : ℕ) → write s.fd_owner fd none d ≡ some g → d < s.fd_owner_cap
    in_range d g h = elim (Bool-cases (d == fd)) [
      | inl same ↦ let bad : none ≡ some g = rw same at h in absurd (cc (bad))
      | inr other ↦ k.in_range d g (rw other at h)
    ]

    by_used : (g d : ℕ) → write s.reg_fd f none g ≡ some d → is_used (s.state g) ≡ true
    by_used g d h = elim (Bool-cases (g == f)) [
      | inl same ↦ let bad : none ≡ some d = rw same at h in absurd (cc (bad))
      | inr other ↦ k.by_used g d (rw other at h)
    ]
