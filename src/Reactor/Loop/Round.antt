-- ===== src/Reactor/Loop/Round.antt =====
-- One round of the run loop.
use cfiber.Common.{ℕ, ◌≡◌, List, [], ◌∷◌, ◌++◌, none, some}
use cfiber.Reactor.State.{Os, Reactor}
use cfiber.Reactor.Inv.{Inv}
use cfiber.Reactor.Loop.{run_fiber}

-- The books are in order and the loop has control.
pub record Idle {os : Os} (s : Reactor os) : Type 0 where
  pub inv : Inv s
  pub nobody : s.current ≡ none
  pub clean : s.zombie ≡ none

-- What the code of a fiber leaves: the books are in order, the loop has control, and nothing but the
-- end of the queue has changed in it.
pub record Turned {os : Os} (s t : Reactor os) : Type 0 where
  pub inv : Inv t
  pub nobody : t.current ≡ none
  pub more : List ℕ
  pub queue : t.ready ≡ s.ready ++ more

-- The code of the fibers keeps to that when it is entered, in any state with the books in order.
abbrev pub TakesTurns : {os : Os} → (ℕ → Reactor os → Reactor os) → Type 0
TakesTurns {os} turn =
    (s : Reactor os) (f : ℕ) → Inv s → s.current ≡ some f → s.zombie ≡ none → Turned s (turn f s)

-- The fibers of the list are run, in its order, each when it is the first of the queue.
pub data Served {os : Os} (turn : ℕ → Reactor os → Reactor os)
    : List ℕ → Reactor os → Reactor os → Type 0 where
  nobody_left : {s : Reactor os} → Served turn [] s s
  first :
      {s t : Reactor os} {fs : List ℕ} (f : ℕ) (behind : List ℕ)
      → s.ready ≡ f ∷ behind
      → Served turn fs (run_fiber turn (record s { ready = behind }) f) t
      → Served turn (f ∷ fs) s t
