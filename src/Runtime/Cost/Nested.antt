-- ===== src/Runtime/Cost/Nested.antt =====
-- What a spawn within a poll costs.
use onlyio.Base.{
  ℕ, ◌+◌, ◌≤◌, ◌≡◌, ap, true, some, none, arith, Outcome, ◌>>=◌, Ensures-ok, Yields, Yields.gives,
  Yields-bind, Yields-map, Yields-self, Yields-deref, Yields-ok,
}
use onlyio.UserData.{initial_poll}
use onlyio.Task.{RawTask, new}
use onlyio.Task.Store.{Store, write_cell}
use onlyio.Task.Release.{clone-live, cell-write_cell, write_cell-write_cell}
use onlyio.Slab
use onlyio.Slab.{Slab, is_task}
use onlyio.Runtime.{Runtime}
use onlyio.Runtime.Send.{counted}
use onlyio.Runtime.Dispatch.{poll, spawn, release_handle, with_current}
use onlyio.Runtime.Acts.{Acts, Acts.done, Acts.spawns, HasRoom, settle}
use onlyio.Runtime.Acts.Settle.{new-one}
use onlyio.Runtime.Cost.{cost, Thrifty}
use onlyio.Runtime.Cost.Steps.{Same, insert-Same, new-future}

module _ {F : Type 0} (rank : F → ℕ) where
  -- At most the rank of the future that is spawned
  abbrev pub Costs : ℕ → Runtime F → Runtime F → Type 0
  Costs n rt v = (a : Acts rt v) × (cost rank a ≤ n)

  module _ (poll_fn : F → Runtime F → Outcome (F × Runtime F)) (thrifty : Thrifty rank poll_fn)
      (q size align : ℕ) (future : F) (rt : Runtime F) (fresh : rt.store.cells q ≡ none)
      (even : is_task q ≡ true) (room : HasRoom rt.tasks) where
    entered_future :
        (t t' : RawTask F) (st : Store F)
        → t.future ≡ future
        → Same (write_cell rt.store q (some (counted t))) st
        → st.cells q ≡ some t'
        → t'.future ≡ future
    entered_future t t' st one same cell = ground (arith, one, same q, cell)

    paid_for :
        (t t' : RawTask F) (st : Store F) (f : F) {u v : Runtime F} (a : Acts u v)
        → t.future ≡ future
        → Same (write_cell rt.store q (some (counted t))) st
        → st.cells q ≡ some t'
        → rank f + cost rank a ≤ rank t'.future
        → 0 + cost rank a + rank f ≤ rank future
    paid_for t t' st f a one same cell l =
        omega (arith, ap rank (entered_future t t' st one same cell))

    -- A spawn into a block at a fresh even address, with room in the slab, is what `Acts` has.
    pub spawn-Costs : Yields (Costs (rank future) rt) (spawn poll_fn q size align future rt)
    unfolding spawn poll cost
    spawn-Costs = Yields-bind (Yields-self (new size align future)) λ made is_made.
        let one = Ensures-ok (new-one size align future) is_made in
        let own = Yields-ok (new-future size align future) is_made in
        rw
          (
            clone-live q (write_cell rt.store q (some made.0))
                (cell-write_cell rt.store q (some made.0)) (omega (arith, one)),
            write_cell-write_cell rt.store q (some made.0) (some (counted made.0)),
          )
          (Yields-bind
            (Yields-self (Slab.insert q rt.tasks (write_cell rt.store q (some (counted made.0)))))
            λ r inserted.
              let same =
                Yields-ok (insert-Same q rt.tasks (write_cell rt.store q (some (counted made.0))))
                  inserted in
              let first : Runtime F = record rt {
                tasks = r.1;
                store = r.2;
                current = initial_poll r.0;
              } in
              Yields-bind
                {P = λ u. Yields (Costs (rank future) rt) (
                  release_handle q u >>= λ released.
                  release_handle q (with_current released rt.current))}
                (Yields-bind (Yields-deref (r.2.cells q)) λ t cell.
                  Yields-bind (thrifty t.future first) λ polled paid.
                    Yields-bind (Yields-deref (polled.1.store.cells q)) λ t' cell'. gives (
                      Yields-map (Yields-self (settle q polled.0 t' polled.1 rt)) λ x end. (
                        spawns done q r.0 size align made.1 future polled.0 made.0 t' r.1 r.2 fresh
                            even room is_made inserted paid.0 cell' end,
                        paid_for made.0 t r.2 polled.0 paid.0 own same cell paid.1,
                      )))
                λ u h. h)
