-- ===== src/Reactor/Inv/Arm.antt =====
-- `arm_fd` keeps the map of descriptors and the fibers in agreement.
use cfiber.Common.{
  ℕ, ◌+◌, ◌*◌, ◌^◌, ◌≤◌, ◌<◌, ◌≡◌, ◌≢◌, ◌∙◌, sym, refl, ap, subst, arith, Bool, true, false, ◌&&◌,
  Option, none, some, ltb, leb, ◌==◌, ◌!=◌, if◌then◌else◌, Bool-cases, inl, inr, bit_or,
}
use cfiber.Core.{u64}
use cfiber.Reactor.Timers.{write, grow_cap}
use cfiber.Reactor.Timers.Outcome.{grow_cap-enough, grow_cap-grows}
use cfiber.Reactor.State.{
  FiberState, is_parked, ctl_add, ctl_mod, CtlResult, ctl_ok, ctl_enoent, ctl_eexist, ctl_failed,
  CtlOp, Errno, enomem, ebusy, from_kernel, Os, Reactor,
}
use cfiber.Reactor.Owner.{
  is_this, detach_fd, fd_owner_reserve, hold_fd, forget_fd, arm_again, arm_first, arm_held,
  arm_reserved, arm_fd, epoll_oneshot,
}
use cfiber.Reactor.Census.{is_used}
use cfiber.Reactor.Inv.{Owned}
use cfiber.Reactor.Inv.Same.{
  SameBooks, SameBooks-refl, SameBooks-trans, SameFields, SameFields-refl, SameFields-trans,
}
use cfiber.Reactor.Inv.Grants.{Grants, NobodyWaits, arm_fd_granted}
use cfiber.Reactor.Inv.Registers.{Awaits, arm_reserved-Registers, arm_reserved_spares}
use cfiber.Reactor.Inv.Detach.{detach_fd-Detached, detach_fd_cap}
use cfiber.Reactor.Inv.Taking.{some_inj, Taking, hold_fd-Owned, forget_fd-Owned}

-- What an attempt to take a descriptor leaves: the map and the fibers agree, the books and the timers
-- have not changed, and if it has succeeded the fiber holds the descriptor.
pub record Armed {os : Os} (s : Reactor os) (f fd : ℕ) (r : Option Errno × Reactor os)
    : Type 0 where
  pub books : SameBooks s r.1
  pub same_timers : r.1.timers ≡ s.timers
  pub owned : Owned r.1
  pub holds : r.0 ≡ none → r.1.reg_fd f ≡ some fd

-- The same for a state that differs only in the descriptors.
from_books :
    {os : Os} (s t : Reactor os) (f fd : ℕ) (r : Option Errno × Reactor os)
    → SameBooks s t
    → t.timers ≡ s.timers
    → Armed t f fd r
    → Armed s f fd r
from_books s t f fd r same timers a = record {
  books = SameBooks-trans s t r.1 same a.books;
  same_timers = a.same_timers ∙ timers;
  owned = a.owned;
  holds = a.holds;
}

Taking-kernel :
    {os : Os} (s : Reactor os) (k : os.Kernel) (f fd : ℕ)
    → Taking s f fd
    → Taking (record s { kernel = k }) f fd
Taking-kernel s k f fd t = record {
  in_map = t.in_map;
  in_fiber = t.in_fiber;
  in_range = t.in_range;
  by_used = t.by_used;
  alone = t.alone;
  only = t.only;
  room = t.room;
  used = t.used;
}

module _ {os : Os} (s : Reactor os) (f fd : ℕ) (t : Taking s f fd) where
  held : (k : os.Kernel) → Armed s f fd (none, hold_fd (record s { kernel = k }) f fd)
  unfolding hold_fd
  held k = record {
    books = record {
      same_ready = refl;
      same_live = refl;
      same_blocked = refl;
      same_active = refl;
      same_state = refl;
      same_current = refl;
      same_zombie = refl;
    };
    same_timers = refl;
    owned = hold_fd-Owned (record s { kernel = k }) f fd (Taking-kernel s k f fd t);
    holds = λ e. ground arith;
  }

  forgotten :
      (k : os.Kernel) → Armed s f fd (some from_kernel, forget_fd (record s { kernel = k }) f fd)
  unfolding forget_fd
  forgotten k = record {
    books = record {
      same_ready = refl;
      same_live = refl;
      same_blocked = refl;
      same_active = refl;
      same_state = refl;
      same_current = refl;
      same_zombie = refl;
    };
    same_timers = refl;
    owned = forget_fd-Owned (record s { kernel = k }) f fd (Taking-kernel s k f fd t);
    holds = λ e. absurd (cc (e));
  }

  arm_again-Armed : (r : CtlResult × os.Kernel) → Armed s f fd (arm_again s f fd r)
  unfolding arm_again
  arm_again-Armed (ctl_ok, k) = held k
  arm_again-Armed (ctl_enoent, k) = forgotten k
  arm_again-Armed (ctl_eexist, k) = forgotten k
  arm_again-Armed (ctl_failed, k) = forgotten k

  arm_first-Armed :
      (events : ℕ) (r : CtlResult × os.Kernel) → Armed s f fd (arm_first s f fd events r)
  unfolding arm_first
  arm_first-Armed events (ctl_ok, k) = held k
  arm_first-Armed events (ctl_enoent, k) = arm_again-Armed (os.epoll_ctl ctl_add fd events f k)
  arm_first-Armed events (ctl_eexist, k) = arm_again-Armed (os.epoll_ctl ctl_mod fd events f k)
  arm_first-Armed events (ctl_failed, k) = forgotten k

-- The fiber holds that descriptor or none, and there is room for it in the map.
module _ {os : Os} (s : Reactor os) (o : Owned s) (f fd : ℕ)
    (only : (d : ℕ) → s.reg_fd f ≡ some d → d ≡ fd) (room : fd < s.fd_owner_cap)
    (used : is_used (s.state f) ≡ true) where
  nobody-Taking : s.fd_owner fd ≡ none → Taking s f fd
  nobody-Taking e = record {
    in_map = o.in_map;
    in_fiber = λ d g h ne. o.in_fiber d g h;
    in_range = o.in_range;
    by_used = o.by_used;
    alone = λ g h. absurd (cc (e, o.in_map g fd h));
    only = only;
    room = room;
    used = used;
  }

  itself-Taking : s.fd_owner fd ≡ some f → Taking s f fd
  itself-Taking e = record {
    in_map = o.in_map;
    in_fiber = λ d g h ne. o.in_fiber d g h;
    in_range = o.in_range;
    by_used = o.by_used;
    alone = λ g h. some_inj g f (sym (o.in_map g fd h) ∙ e);
    only = only;
    room = room;
    used = used;
  }

  -- Another holds it, and is made to let go.
  module _ (holder : ℕ) (e : s.fd_owner fd ≡ some holder) (ne : holder ≢ f) where
    released : Reactor os
    released = record s { reg_fd = write s.reg_fd holder none }

    kept : (g d : ℕ) → write s.reg_fd holder none g ≡ some d → (s.reg_fd g ≡ some d) × (g ≢ holder)
    kept g d h = elim (Bool-cases (g == holder)) [
      | inl same ↦ let bad : none ≡ some d = rw same at h in absurd (cc (bad))
      | inr other ↦ (rw other at h, λ q. ground (arith, q, other))
    ]

    other-Taking : Taking released f fd
    unfolding released
    other-Taking = record {
      in_map = λ g d h. o.in_map g d (kept g d h).0;
      in_fiber = in_fiber;
      in_range = o.in_range;
      by_used = λ g d h. o.by_used g d (kept g d h).0;
      alone = λ g h.
          let (old, off) = kept g fd h in
          absurd (off (some_inj g holder (sym (o.in_map g fd old) ∙ e)));
      only = λ d h. only d (kept f d h).0;
      room = room;
      used = used;
    }
      where
        in_fiber :
            (d g : ℕ) → s.fd_owner d ≡ some g → d ≢ fd → write s.reg_fd holder none g ≡ some d
        in_fiber d g h off = elim (Bool-cases (g == holder)) [
          | inl same ↦
              let q : g ≡ holder = ground (arith, same) in
              let at_holder = o.in_fiber fd holder e in
              let place = some_inj d fd (sym (o.in_fiber d g h) ∙ ap s.reg_fd q ∙ at_holder) in
              absurd (off place)
          | inr other ↦ rw other (o.in_fiber d g h)
        ]

  arm_held-Armed :
      (events : ℕ) (holder : Option ℕ)
      → s.fd_owner fd ≡ holder
      → Armed s f fd (arm_held s f fd events holder)
  unfolding arm_held released
  arm_held-Armed events none e =
      arm_first-Armed s f fd (nobody-Taking e) events (os.epoll_ctl ctl_add fd events f s.kernel)
  arm_held-Armed events (some holder) e =
      elim (Bool-cases
        (holder != f && is_parked (s.state holder) && is_this (s.wait_fd holder) fd)) [
          | inl waits ↦ rw waits (record {
            books = SameBooks-refl s;
            same_timers = refl;
            owned = o;
            holds = λ q. absurd (cc (q));
          })
          | inr free ↦ elim (Bool-cases (holder == f)) [
            | inl same ↦
                let q : holder ≡ f = ground (arith, same) in
                rw (free, same)
                  (arm_first-Armed s f fd (itself-Taking (e ∙ ap some q)) events
                    (os.epoll_ctl ctl_mod fd events f s.kernel))
            | inr other ↦
                let ne : holder ≢ f = λ q. ground (arith, q, other) in
                rw (free, other)
                  (from_books s (released holder e ne) f fd
                    (arm_first (released holder e ne) f fd events
                      (os.epoll_ctl ctl_mod fd events f s.kernel))
                    (record {
                      same_ready = refl;
                      same_live = refl;
                      same_blocked = refl;
                      same_active = refl;
                      same_state = refl;
                      same_current = refl;
                      same_zombie = refl;
                    })
                    refl
                    (arm_first-Armed (released holder e ne) f fd (other-Taking holder e ne) events
                      (os.epoll_ctl ctl_mod fd events f s.kernel)))
          ]
        ]

-- With room in the map: a fiber that holds another descriptor lets go of that first.
arm_reserved-Armed :
    {os : Os} (s : Reactor os)
    → Owned s
    → (f fd events : ℕ) → fd < s.fd_owner_cap
    → is_used (s.state f) ≡ true
    → Armed s f fd (arm_reserved s f fd events)
unfolding arm_reserved
arm_reserved-Armed s o f fd events room used = elim (Bool-cases (is_this (s.reg_fd f) fd)) [
  | inl here ↦ rw here (
      arm_held-Armed s o f fd (this_only (s.reg_fd f) refl here) room used
        (bit_or events epoll_oneshot) (s.fd_owner fd) refl)
  | inr elsewhere ↦
      let d = detach_fd-Detached s o f in
      let t = detach_fd s f in
      let cap : t.fd_owner_cap ≡ s.fd_owner_cap = detach_fd_cap s f in
      let used' = ap (λ (st : ℕ → FiberState). is_used (st f)) d.books.same_state ∙ used in
      rw elsewhere (
        from_books s t f fd (arm_held t f fd (bit_or events epoll_oneshot) (t.fd_owner fd)) d.books
          d.same_timers
          (arm_held-Armed t d.owned f fd (λ e h. absurd (cc (h, d.let_go)))
            (omega (arith, cap, room)) used' (bit_or events epoll_oneshot) (t.fd_owner fd) refl))
]
  where
    this_only :
        (r : Option ℕ)
        → s.reg_fd f ≡ r
        → is_this r fd ≡ true
        → (e : ℕ) → s.reg_fd f ≡ some e
        → e ≡ fd
    this_only none q h e k = absurd (cc (h))
    this_only (some d) q h e k = let same = some_inj d e (sym q ∙ k) in ground (arith, same, h)

-- What making room in the map leaves.
record HasRoom {os : Os} (s : Reactor os) (fd : ℕ) (r : Bool × Reactor os) : Type 0 where
  books : SameBooks s r.1
  same_timers : r.1.timers ≡ s.timers
  owned : Owned r.1
  room : r.0 ≡ true → fd < r.1.fd_owner_cap
  fields : SameFields s r.1
  same_reg : r.1.reg_fd ≡ s.reg_fd

reserved-HasRoom :
    {os : Os} (s : Reactor os)
    → Owned s
    → (fd : ℕ) → fd < 2 ^ 31
    → HasRoom s fd (fd_owner_reserve s fd)
unfolding fd_owner_reserve
reserved-HasRoom {os} s o fd small = elim (Bool-cases (leb (u64 (fd + 1)) s.fd_owner_cap)) [
  | inl fits ↦ rw fits (record {
    books = SameBooks-refl s;
    same_timers = refl;
    owned = o;
    room = λ e. ground (arith, fits);
    fields = SameFields-refl s;
    same_reg = refl;
  })
  | inr short ↦
      elim (Bool-cases
        (os.realloc s.kernel (u64 (grow_cap (u64 (fd + 1)) (u64 (fd + 1)) start * 8)))) [
          | inr refused ↦
              rw (short, refused)
                (record {
                  books = SameBooks-refl s;
                  same_timers = refl;
                  owned = o;
                  room = λ e. absurd (cc (e));
                  fields = SameFields-refl s;
                  same_reg = refl;
                })
          | inl got ↦
              rw (short, got)
                (record {
                  books = record {
                    same_ready = refl;
                    same_live = refl;
                    same_blocked = refl;
                    same_active = refl;
                    same_state = refl;
                    same_current = refl;
                    same_zombie = refl;
                  };
                  same_timers = refl;
                  owned = record {
                    in_map = λ g d h.
                        let old = o.in_map g d h in
                        let near : ltb d s.fd_owner_cap ≡ true =
                          ground (arith, o.in_range d g old) in
                        rw near old;
                    in_fiber = λ d g h. o.in_fiber d g (before d g h).0;
                    in_range = λ d g h. omega (arith, (before d g h).1, grown short);
                    by_used = o.by_used;
                  };
                  room = λ e. omega (arith, enough short);
                  fields = record {
                    same_generation = refl;
                    same_park = refl;
                    same_permit = refl;
                    same_wait_fd = refl;
                    same_status = refl;
                    same_stack = refl;
                  };
                  same_reg = refl;
                })
        ]
]
  where
    start : ℕ
    start = if s.fd_owner_cap == 0 then 64 else s.fd_owner_cap

    before :
        (d g : ℕ)
        → (if ltb d s.fd_owner_cap then s.fd_owner d else none) ≡ some g
        → (s.fd_owner d ≡ some g) × (d < s.fd_owner_cap)
    before d g h = elim (Bool-cases (ltb d s.fd_owner_cap)) [
      | inl near ↦ (rw near at h, ground (arith, near))
      | inr far ↦ let bad : none ≡ some g = rw far at h in absurd (cc (bad))
    ]

    grown :
        leb (u64 (fd + 1)) s.fd_owner_cap ≡ false
        → s.fd_owner_cap ≤ grow_cap (u64 (fd + 1)) (u64 (fd + 1)) start
    grown short =
        let more : s.fd_owner_cap ≤ start = ground arith in
        omega (arith, more, grow_cap-grows (u64 (fd + 1)) (u64 (fd + 1)) start (omega arith))

    enough :
        leb (u64 (fd + 1)) s.fd_owner_cap ≡ false
        → fd + 1 ≤ grow_cap (u64 (fd + 1)) (u64 (fd + 1)) start
    enough short =
        let pos : 0 < start = ground arith in
        let word : u64 (fd + 1) ≡ fd + 1 = omega arith in
        let law =
          grow_cap-enough (u64 (fd + 1)) (u64 (fd + 1)) start pos (omega arith) (omega arith) in
        omega (arith, law, word)

-- A descriptor that `open` could have given.
abbrev pub IsDescriptor : Option ℕ → Type 0
IsDescriptor none = Unit
IsDescriptor (some fd) = fd < 2 ^ 31

-- What a call of `arm_fd` leaves.
pub record ArmResult {os : Os} (s : Reactor os) (f : ℕ) (fd : Option ℕ) (events : ℕ)
    (r : Option Errno × Reactor os) : Type 0 where
  pub books : SameBooks s r.1
  pub same_timers : r.1.timers ≡ s.timers
  pub fields : SameFields s r.1
  pub owned : Owned r.1
  pub holds : r.0 ≡ none → (r.1.reg_fd f ≡ fd) × (fd ≢ none)
  pub registered :
      r.0 ≡ none
      → (d : ℕ) × (fd ≡ some d)
        × (op : CtlOp) × (k : os.Kernel) × (os.epoll_ctl op d (bit_or events epoll_oneshot) f k
            ≡ (ctl_ok, r.1.kernel))
  pub others : (g : ℕ) → g ≢ f → s.reg_fd g ≢ fd → r.1.reg_fd g ≡ s.reg_fd g
  pub spares :
      (g d : ℕ)
      → g ≢ f
      → fd ≡ some d
      → Awaits s g d
      → (e : Errno) × (r.0 ≡ some e) × (r.1.reg_fd g ≡ some d)

room-ArmResult :
    {os : Os} (s : Reactor os) (f fd events : ℕ) (r : Bool × Reactor os)
    → is_used (s.state f) ≡ true
    → HasRoom s fd r
    → ArmResult s f
        (some fd)
        events
        (if r.0 then arm_reserved r.1 f fd events else (some enomem, r.1))
room-ArmResult s f fd events (false, t) used h = record {
  books = h.books;
  same_timers = h.same_timers;
  fields = h.fields;
  owned = h.owned;
  holds = λ e. absurd (cc (e));
  registered = λ e. absurd (cc (e));
  others = λ g ne off. ap (λ (m : ℕ → Option ℕ). m g) h.same_reg;
  spares = λ g d ne q awaits. (enomem, refl, ap (λ (m : ℕ → Option ℕ). m g) h.same_reg ∙ awaits.2);
}
room-ArmResult {os} s f fd events (true, t) used h =
    let used' = ap (λ (st : ℕ → FiberState). is_used (st f)) h.books.same_state ∙ used in
    let a = arm_reserved-Armed t h.owned f fd events (h.room refl) used' in
    let k = arm_reserved-Registers t h.owned f fd events in
    record {
      books = SameBooks-trans s t (arm_reserved t f fd events).1 h.books a.books;
      same_timers = a.same_timers ∙ h.same_timers;
      fields = SameFields-trans s t (arm_reserved t f fd events).1 h.fields k.fields;
      owned = a.owned;
      holds = λ e. (a.holds e, λ bad. absurd (cc (bad)));
      registered = λ e. let (op, k1, answer) = k.registered e in (fd, refl, op, k1, answer);
      others = λ g ne off.
          let here = ap (λ (m : ℕ → Option ℕ). m g) h.same_reg in
          k.others g ne (λ e. off (sym here ∙ e)) ∙ here;
      spares = λ g d ne q awaits.
          let same : fd ≡ d = some_inj fd d q in
          let still : Awaits t g d = (
            ap (λ (m : ℕ → FiberState). is_parked (m g)) h.books.same_state ∙ awaits.0,
            ap (λ (m : ℕ → Option ℕ). is_this (m g) d) h.fields.same_wait_fd ∙ awaits.1,
            ap (λ (m : ℕ → Option ℕ). m g) h.same_reg ∙ awaits.2,
          ) in
          let (busy, kept) =
            arm_reserved_spares t h.owned f fd events g ne
              (subst (λ (x : ℕ). Awaits t g x) (sym same) still) in
          (ebusy, busy, kept ∙ ap some same);
    }

-- When the map and the fibers agree, and whatever `epoll_ctl` and `realloc` answer, they still agree
-- after `arm_fd` for a fiber in use and a descriptor below 2^31 or negative; the queue, the counters,
-- the states and the timers are as they were, and so are the generation, the park, the permit, the
-- descriptor waited for, the status and the stack of every fiber, and the registration of every other
-- fiber that does not have this descriptor. If the call succeeds the fiber holds the descriptor, and
-- the kernel is as its positive answer has left it to a registration of the descriptor for the fiber,
-- with the events and the one-shot flag. If another fiber is parked on the descriptor and holds it,
-- the call fails and that fiber keeps it; and if nobody else waits for it and the system grants what
-- it is asked for, the call succeeds.
pub arm_fd-ArmResult :
    {os : Os} (s : Reactor os)
    → Owned s
    → (f : ℕ) (fd : Option ℕ) (events : ℕ) → is_used (s.state f) ≡ true
    → IsDescriptor fd
    → ArmResult s f fd events (arm_fd s f fd events)
      × (Grants os → (d : ℕ) → fd ≡ some d → NobodyWaits s f d → (arm_fd s f fd events).0 ≡ none)
unfolding arm_fd
arm_fd-ArmResult s o f none events used small = (
  record {
    books = SameBooks-refl s;
    same_timers = refl;
    fields = SameFields-refl s;
    owned = o;
    holds = λ e. absurd (cc (e));
    registered = λ e. absurd (cc (e));
    others = λ g ne off. refl;
    spares = λ g d ne q awaits. absurd (cc (q));
  },
  λ grants d q free. absurd (cc (q)),
)
arm_fd-ArmResult s o f (some fd) events used small = (
  room-ArmResult s f fd events (fd_owner_reserve s fd) used (reserved-HasRoom s o fd small),
  λ grants d q free.
      arm_fd_granted grants s f fd events
        (subst (λ (x : ℕ). NobodyWaits s f x) (sym (some_inj fd d q)) free),
)
