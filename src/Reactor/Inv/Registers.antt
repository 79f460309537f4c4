-- ===== src/Reactor/Inv/Registers.antt =====
-- What `arm_fd` of src/cfiber/reactor/reactor.c has to do with the kernel and with other fibers.
use cfiber.Common.{
  ℕ, ◌≡◌, ◌≢◌, ◌∙◌, sym, refl, ap, arith, true, ◌&&◌, Option, none, some, ◌==◌, ◌!=◌, Bool-cases,
  inl, inr, bit_or,
}
use cfiber.Reactor.Timers.{write}
use cfiber.Reactor.State.{
  FiberState, is_parked, CtlOp, ctl_add, ctl_mod, CtlResult, ctl_ok, ctl_enoent, ctl_eexist,
  ctl_failed, Errno, ebusy, Os, Reactor,
}
use cfiber.Reactor.Owner.{
  is_this, detach_fd, hold_fd, forget_fd, arm_again, arm_first, arm_held, arm_reserved,
  epoll_oneshot,
}
use cfiber.Reactor.Inv.{Owned}
use cfiber.Reactor.Inv.Taking.{some_inj}
use cfiber.Reactor.Inv.Same.{SameFields, SameFields-refl, SameFields-trans}
use cfiber.Reactor.Inv.Detach.{detach_from_lem, detach_fd-Detached}

-- A success is the kernel's answer to a registration of the descriptor for the fiber and these
-- events, and the fields of the fibers stay but for registrations; only the fiber itself, and one
-- that had this descriptor, may have another.
pub record Registers {os : Os} (s : Reactor os) (f fd events : ℕ) (r : Option Errno × Reactor os)
    : Type 0 where
  pub registered :
      r.0 ≡ none
      → (op : CtlOp) × (k : os.Kernel) × (os.epoll_ctl op fd events f k ≡ (ctl_ok, r.1.kernel))
  pub fields : SameFields s r.1
  pub others : (g : ℕ) → g ≢ f → s.reg_fd g ≢ some fd → r.1.reg_fd g ≡ s.reg_fd g

unwritten : {A : Type 0} (m : ℕ → A) (f g : ℕ) (v : A) → g ≢ f → write m f v g ≡ m g
unwritten m f g v ne = ground (arith, ne)

module _ {os : Os} (s : Reactor os) (f fd events : ℕ) where
  arm_again-Registers :
      (op : CtlOp) (k : os.Kernel) (r : CtlResult × os.Kernel)
      → os.epoll_ctl op fd events f k ≡ r
      → Registers s f fd events (arm_again s f fd r)
  unfolding arm_again hold_fd forget_fd
  arm_again-Registers op k (ctl_ok, k1) e = record {
    registered = λ q. (op, k, e);
    fields = record {
      same_generation = refl;
      same_park = refl;
      same_permit = refl;
      same_wait_fd = refl;
      same_status = refl;
      same_stack = refl;
    };
    others = λ g ne off. unwritten s.reg_fd f g (some fd) ne;
  }
  arm_again-Registers op k (ctl_enoent, k1) e = record {
    registered = λ q. absurd (cc (q));
    fields = record {
      same_generation = refl;
      same_park = refl;
      same_permit = refl;
      same_wait_fd = refl;
      same_status = refl;
      same_stack = refl;
    };
    others = λ g ne off. unwritten s.reg_fd f g none ne;
  }
  arm_again-Registers op k (ctl_eexist, k1) e = record {
    registered = λ q. absurd (cc (q));
    fields = record {
      same_generation = refl;
      same_park = refl;
      same_permit = refl;
      same_wait_fd = refl;
      same_status = refl;
      same_stack = refl;
    };
    others = λ g ne off. unwritten s.reg_fd f g none ne;
  }
  arm_again-Registers op k (ctl_failed, k1) e = record {
    registered = λ q. absurd (cc (q));
    fields = record {
      same_generation = refl;
      same_park = refl;
      same_permit = refl;
      same_wait_fd = refl;
      same_status = refl;
      same_stack = refl;
    };
    others = λ g ne off. unwritten s.reg_fd f g none ne;
  }

  arm_first-Registers :
      (op : CtlOp) (k : os.Kernel) (r : CtlResult × os.Kernel)
      → os.epoll_ctl op fd events f k ≡ r
      → Registers s f fd events (arm_first s f fd events r)
  unfolding arm_first hold_fd forget_fd
  arm_first-Registers op k (ctl_ok, k1) e = record {
    registered = λ q. (op, k, e);
    fields = record {
      same_generation = refl;
      same_park = refl;
      same_permit = refl;
      same_wait_fd = refl;
      same_status = refl;
      same_stack = refl;
    };
    others = λ g ne off. unwritten s.reg_fd f g (some fd) ne;
  }
  arm_first-Registers op k (ctl_enoent, k1) e =
      arm_again-Registers ctl_add k1 (os.epoll_ctl ctl_add fd events f k1) refl
  arm_first-Registers op k (ctl_eexist, k1) e =
      arm_again-Registers ctl_mod k1 (os.epoll_ctl ctl_mod fd events f k1) refl
  arm_first-Registers op k (ctl_failed, k1) e = record {
    registered = λ q. absurd (cc (q));
    fields = record {
      same_generation = refl;
      same_park = refl;
      same_permit = refl;
      same_wait_fd = refl;
      same_status = refl;
      same_stack = refl;
    };
    others = λ g ne off. unwritten s.reg_fd f g none ne;
  }

-- The same from a state that differs in registrations of the fiber, or of this descriptor, only.
from_fields :
    {os : Os} (s t : Reactor os) (f fd events : ℕ) (r : Option Errno × Reactor os)
    → SameFields s t
    → ((g : ℕ) → g ≢ f → s.reg_fd g ≢ some fd → t.reg_fd g ≡ s.reg_fd g)
    → Registers t f fd events r
    → Registers s f fd events r
from_fields s t f fd events r same regs a = record {
  registered = a.registered;
  fields = SameFields-trans s t r.1 same a.fields;
  others = λ g ne off. a.others g ne (λ e. off (sym (regs g ne off) ∙ e)) ∙ regs g ne off;
}

arm_held-Registers :
    {os : Os} (s : Reactor os)
    → Owned s
    → (f fd events : ℕ) (holder : Option ℕ) → s.fd_owner fd ≡ holder
    → Registers s f fd events (arm_held s f fd events holder)
unfolding arm_held
arm_held-Registers {os} s o f fd events none e =
    arm_first-Registers s f fd events ctl_add s.kernel (os.epoll_ctl ctl_add fd events f s.kernel)
      refl
arm_held-Registers {os} s o f fd events (some holder) e =
    elim (Bool-cases (holder != f && is_parked (s.state holder) && is_this (s.wait_fd holder) fd)) [
      | inl waits ↦ rw waits (record {
        registered = λ q. absurd (cc (q));
        fields = SameFields-refl s;
        others = λ g ne off. refl;
      })
      | inr free ↦ elim (Bool-cases (holder == f)) [
        | inl same ↦
            rw (free, same)
              (arm_first-Registers s f fd events ctl_mod s.kernel
                (os.epoll_ctl ctl_mod fd events f s.kernel) refl)
        | inr other ↦
            let t = record s { reg_fd = write s.reg_fd holder none } in
            rw (free, other)
              (from_fields s t f fd events
                (arm_first t f fd events (os.epoll_ctl ctl_mod fd events f s.kernel))
                (record {
                  same_generation = refl;
                  same_park = refl;
                  same_permit = refl;
                  same_wait_fd = refl;
                  same_status = refl;
                  same_stack = refl;
                })
                (λ g ne off.
                  unwritten s.reg_fd holder g none
                    (λ q. off (ap s.reg_fd q ∙ o.in_fiber fd holder e)))
                (arm_first-Registers t f fd events ctl_mod s.kernel
                  (os.epoll_ctl ctl_mod fd events f s.kernel) refl))
      ]
    ]

pub arm_reserved-Registers :
    {os : Os} (s : Reactor os)
    → Owned s
    → (f fd events : ℕ)
    → Registers s f fd (bit_or events epoll_oneshot) (arm_reserved s f fd events)
unfolding arm_reserved detach_fd
arm_reserved-Registers s o f fd events = elim (Bool-cases (is_this (s.reg_fd f) fd)) [
  | inl here ↦
      rw here (arm_held-Registers s o f fd (bit_or events epoll_oneshot) (s.fd_owner fd) refl)
  | inr elsewhere ↦
      let d = detach_fd-Detached s o f in
      let t = detach_fd s f in
      let (same, regs) = detach_from_lem s f (s.reg_fd f) in
      rw elsewhere (
        from_fields s t f fd (bit_or events epoll_oneshot)
          (arm_held t f fd (bit_or events epoll_oneshot) (t.fd_owner fd)) same
          (λ g ne off. regs g ne)
          (arm_held-Registers t d.owned f fd (bit_or events epoll_oneshot) (t.fd_owner fd) refl))
]

-- Fiber `g` waits for the descriptor, and holds its registration.
abbrev pub Awaits : {os : Os} → Reactor os → ℕ → ℕ → Type 0
Awaits s g fd =
    (is_parked (s.state g) ≡ true) × (is_this (s.wait_fd g) fd ≡ true) × (s.reg_fd g ≡ some fd)

this_some : (r : Option ℕ) (fd : ℕ) → is_this r fd ≡ true → r ≡ some fd
this_some none fd e = absurd (cc (e))
this_some (some d) fd e = let q : d ≡ fd = ground arith in ap some q

arm_held_spares :
    {os : Os} (s : Reactor os) (f fd events g : ℕ)
    → g ≢ f
    → Awaits s g fd
    → arm_held s f fd events (some g) ≡ (some ebusy, s)
unfolding arm_held
arm_held_spares s f fd events g ne (parked, waits, reg) =
    let apart : (g != f) ≡ true = ground (arith, ne) in rw (apart, parked, waits) refl

-- A fiber that waits for the descriptor keeps it, and the call of another fiber fails.
pub arm_reserved_spares :
    {os : Os} (s : Reactor os)
    → Owned s
    → (f fd events g : ℕ) → g ≢ f
    → Awaits s g fd
    → ((arm_reserved s f fd events).0 ≡ some ebusy)
      × ((arm_reserved s f fd events).1.reg_fd g ≡ some fd)
unfolding arm_reserved detach_fd
arm_reserved_spares s o f fd events g ne (parked, waits, reg) =
    elim (Bool-cases (is_this (s.reg_fd f) fd)) [
      | inl here ↦
          let mine = o.in_map f fd (this_some (s.reg_fd f) fd here) in
          absurd (ne (some_inj g f (sym (o.in_map g fd reg) ∙ mine)))
      | inr elsewhere ↦
          let d = detach_fd-Detached s o f in
          let t = detach_fd s f in
          let (same, regs) = detach_from_lem s f (s.reg_fd f) in
          let still : Awaits t g fd = (
            ap (λ (m : ℕ → FiberState). is_parked (m g)) d.books.same_state ∙ parked,
            ap (λ (m : ℕ → Option ℕ). is_this (m g) fd) same.same_wait_fd ∙ waits,
            regs g ne ∙ reg,
          ) in
          let taken : t.fd_owner fd ≡ some g = d.owned.in_map g fd still.2 in
          let busy =
            ap (λ (h : Option ℕ). arm_held t f fd (bit_or events epoll_oneshot) h) taken
            ∙ arm_held_spares t f fd (bit_or events epoll_oneshot) g ne still in
          rw elsewhere (
            ap (λ (r : Option Errno × Reactor _). r.0) busy,
            ap (λ (r : Option Errno × Reactor _). r.1.reg_fd g) busy ∙ still.2,
          )
    ]
