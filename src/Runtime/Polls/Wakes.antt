-- ===== src/Runtime/Polls/Wakes.antt =====
-- The accounts over a poll from the wake list.
use onlyio.Base.{ℕ, ◌+◌, ◌<◌, refl, Outcome, arith, Ensures, Ensures-bind, Ensures-map}
use onlyio.UserData.{TaskInfo}
use onlyio.Task.Store.{update}
use onlyio.Slab.Map.{index_of_lookup}
use onlyio.Runtime.{Runtime}
use onlyio.Runtime.Dispatch.{with_store, with_current, wake_one}
use onlyio.Runtime.Account.{Account-Live}
use onlyio.Runtime.Account.Claims.{clone-Account}
use onlyio.Runtime.Acts.Entries.{refs}
use onlyio.Runtime.Acts.Balance.{Balanced, rebalance}
use onlyio.Runtime.Acts.Settle.{release_handle-Balanced}
use onlyio.Runtime.Polls.{Lawful, poll-Polling}

module _ {F : Type 0} (poll_fn : F → Runtime F → Outcome (F × Runtime F)) (law : Lawful poll_fn)
    (extra : ℕ → ℕ) where
  -- When the count of each task is the number of claims on it, of the entries that wait and of
  -- `extra`, and no other waker waits, a poll from the wake list of a task that still has a claim keeps
  -- this: it takes a reference and gives it back, and no waker waits afterwards. It has no undefined
  -- behaviour, but for the count that the last release of a task which the poll spawns and which
  -- finishes at once reads back from the block it has just freed. This is for a future that does to the
  -- runtime only what `Acts` has.
  pub wake_one-Balanced :
      (info : TaskInfo) (rt : Runtime F)
      → Balanced extra rt
      → 0 < extra info.tag.task_idx + refs info.tag.task_idx rt.pending
      → Ensures (Balanced extra) (wake_one poll_fn info rt)
  unfolding wake_one
  wake_one-Balanced info rt b c =
      let i = info.tag.task_idx in
      let (p, t, l, n) =
        Account-Live rt.tasks rt.store b.0 (λ j. extra j + refs j rt.pending) i b.1 c in
      let claims : ℕ → ℕ = update extra i (extra i + 1) in
      rw (index_of_lookup rt.tasks i l.found) (
        Ensures-bind
          (clone-Account rt.tasks rt.store b.0 (λ j. extra j + refs j rt.pending) i p b.1 c l.found)
          λ st a.
            let ready : Runtime F = with_current (with_store rt st) info in
            Ensures-bind
              (poll-Polling poll_fn law claims i p rt.tasks ready (record {
                balanced = rebalance claims ready b.0 _ b.2 a (λ j. ground arith);
                held = ground arith;
                current = refl;
                found = l.found;
                keeps = λ j q e. e;
              }))
              λ v w.
                Ensures-map (release_handle-Balanced claims i p v w.balanced (ground arith) w.found)
                  λ u h. rebalance extra u h.0.0 _ h.0.2 h.0.1 (λ j. ground arith))
