-- ===== src/Calls.antt =====
-- src/calls: what a task awaits. A future is its state; a poll takes the runtime, of which `current` is
-- CURRENT_TASK, and returns the answer, the new state and the runtime. `more` and `buffer_select` are
-- the functions of `io_uring::cqueue`.
pub mod Read
pub mod Commit
pub mod Accept
pub mod Write
pub mod Socket
pub mod Slots
pub mod Fanout
pub mod Ends
pub mod Acting
pub mod Entry
use onlyio.Base.{ℕ, Outcome}
use onlyio.Runtime.{Runtime}

-- `std::task::Poll`
pub data Poll (A : Type 0) : Type 0 where
  pending : Poll A
  ready : A → Poll A

-- What a poll of a future with the states `S` and the output `A` ends with
abbrev pub Polled : Type 0 → Type 0 → Type 0 → Type 0
Polled F S A = Outcome (Poll A × S × Runtime F)
