-- ===== src/Runtime/Polls/Nested.antt =====
-- A spawn within a poll.
use onlyio.Base.{
  ℕ, ◌+◌, ◌≡◌, true, some, none, arith, Outcome, ◌>>=◌, Ensures, Ensures.returns, Ensures-bind,
  Ensures-map, Ensures-self, Ensures-ok,
}
use onlyio.UserData.{initial_poll}
use onlyio.Task.Store.{write_cell, update}
use onlyio.Task.Release.{clone-live, cell-write_cell, write_cell-write_cell}
use onlyio.Slab.{Slab, is_task}
use onlyio.Runtime.{Runtime}
use onlyio.Runtime.Send.{counted}
use onlyio.Runtime.Dispatch.{poll, spawn, release_handle, with_current}
use onlyio.Runtime.Acts.{Acts, Acts.done, Acts.spawns, HasRoom}
use onlyio.Runtime.Acts.Entries.{refs}
use onlyio.Runtime.Acts.Balance.{Polling}
use onlyio.Runtime.Acts.Keep.{Acts-Polling, Entered-Polling}
use onlyio.Runtime.Acts.Settle.{insert-Account, new-one, settle-Balanced}
use onlyio.Runtime.Polls.{Lawful, cell_of}

module _ {F : Type 0} (poll_fn : F → Runtime F → Outcome (F × Runtime F))
    (law : Lawful poll_fn) where
  -- A live task that is polled, with the counts in order, may spawn: into a block at a fresh even
  -- address, with room in the slab, and a future that does to the runtime only what `Acts` has, as its
  -- own spawns. But for the read in the last release of a task, that is not
  -- undefined, and again what `Acts` has.
  pub spawn-Acts :
      (extra : ℕ → ℕ) (i p : ℕ) (s : Slab) (rt : Runtime F) (q size align : ℕ) (future : F)
      → Polling extra i p s rt
      → rt.store.cells q ≡ none
      → is_task q ≡ true
      → HasRoom rt.tasks
      → Ensures (Acts rt) (spawn poll_fn q size align future rt)
  unfolding spawn poll
  spawn-Acts extra i p s rt q size align future v fresh even room =
      Ensures-bind (Ensures-self (Ensures-map (new-one size align future) λ r e. tt))
        λ made is_made.
          let one = Ensures-ok (new-one size align future) is_made in
          let into =
            insert-Account rt.tasks rt.store v.balanced.0 (λ j. extra j + refs j rt.pending) q
              (counted made.0) v.balanced.1 room even fresh (omega (arith, one)) in
          rw
            (
              clone-live q (write_cell rt.store q (some made.0))
                  (cell-write_cell rt.store q (some made.0)) (omega (arith, one)),
              write_cell-write_cell rt.store q (some made.0) (some (counted made.0)),
            )
            (Ensures-bind (Ensures-self (Ensures-map into λ r e. tt)) λ r inserted.
              let (none_before, ready) =
                Entered-Polling extra rt q r v.balanced.2 (Ensures-ok into inserted) in
              let first : Runtime F = record rt {
                tasks = r.1;
                store = r.2;
                current = initial_poll r.0;
              } in
              let (t, cell) =
                cell_of (update extra r.0 2) r.0 q first ready.balanced ready.held ready.found in
              rw cell (
                Ensures-bind
                  {P = λ u. Ensures (Acts rt) (
                    release_handle q u >>= λ released.
                    release_handle q (with_current released rt.current))}
                  (Ensures-bind (law t.future first (update extra r.0 2) r.0 q r.1 t ready cell)
                    λ polled acts.
                      let w = Acts-Polling (update extra r.0 2) r.0 q r.1 acts ready in
                      let (t', cell') =
                        cell_of (update extra r.0 2) r.0 q polled.1 w.balanced w.held w.found in
                      rw cell' (
                        returns (
                          Ensures-map
                            (Ensures-self (
                              Ensures-map
                                (settle-Balanced extra r.0 q polled.0 t' polled.1 rt w.balanced
                                  none_before w.found cell')
                                λ x e. tt))
                            λ x end.
                              spawns done q r.0 size align made.1 future polled.0 made.0 t' r.1 r.2
                                fresh even room is_made inserted acts cell' end)))
                  λ u h. h))
