-- ===== src/Runtime/Cost.antt =====
-- What it costs to run a future: the entries that it queues, and the entries that it may still queue.
pub mod Weight
pub mod Steps
pub mod Spent
pub mod Turns
pub mod Finishes
pub mod Sums
pub mod Nested
use onlyio.Base.{ℕ, suc, ◌+◌, ◌≤◌, List, Outcome, length, Yields}
use onlyio.Runtime.{Runtime}
use onlyio.Runtime.Acts.{
  Acts, Acts.done, Acts.sends, Acts.sends_multishot, Acts.commits, Acts.fans_out, Acts.advances,
  Acts.goes_on, Acts.uses_buffers, Acts.spawns,
}

module _ {F : Type 0} (rank : F → ℕ) where
  -- The entries that are queued, with the rank of each future that is spawned, as it is left.
  unfoldable pub cost : {rt v : Runtime F} → Acts rt v → ℕ
  cost done = 0
  cost (sends a op e) = cost a + 1
  cost (sends_multishot a op e) = cost a + 1
  cost (commits a ptr fd len buf_id e) = cost a + 1
  cost (fans_out a fds buffer len few e) = cost a + length fds
  cost (advances a e) = cost a
  cost (goes_on a) = cost a
  cost (uses_buffers a b r) = cost a
  cost
        (spawns a p i size align offset future f' t t' s st fresh even room made inserted acts cell
          end) =
      cost a + cost acts + rank f'

  -- Every poll that returns lowers the rank of the future by as much as it costs: the rank bounds the
  -- entries that the future can still queue.
  abbrev pub Thrifty : (F → Runtime F → Outcome (F × Runtime F)) → Type 0
  Thrifty poll_fn =
      (f : F) (rt : Runtime F)
      → Yields (λ (r : F × Runtime F). (a : Acts rt r.1) × (rank r.0 + cost a ≤ rank f))
          (poll_fn f rt)
