-- ===== src/Runtime/Cost/Turns.antt =====
-- Completions, polls and turns of the loop never raise what the futures may still queue.
use onlyio.Base.{
  ℕ, ◌+◌, ◌≤◌, ◌≡◌, refl, ap, ◌∙◌, Bool, true, false, some, none, arith, length, Outcome, ok,
  Yields, Yields.gives, Yields.fails, Yields-bind, Yields-map, Yields-self, Yields-deref,
  if◌then◌else◌, List, [], ◌∷◌,
}
use onlyio.UserData.{TaskInfo, CqeEntry, from_entry, initial_poll}
use onlyio.Task.{
  RawTask, inc_rc, SyscallNbCompResult, normal, expired, multiple, error, evaluate_syscall_nb,
  augmente_syscall_nb,
}
use onlyio.Task.Store.{Store, write_cell, clone}
use onlyio.Slab
use onlyio.Slab.{Slab}
use onlyio.Runtime.{Runtime}
use onlyio.Runtime.Dispatch.{
  with_store, with_current, release_handle, poll, dispatch, next_call, handle_cqe_entry, spawn,
  free_unsed_slab_slot, remove_all,
}
use onlyio.Runtime.Acts.{Acts}
use onlyio.Runtime.Loop.{check_free, handle_all}
use onlyio.Runtime.Cost.{cost, Thrifty}
use onlyio.Runtime.Cost.Weight.{future_of, future_at, rank_of, ranks, Weighs}
use onlyio.Runtime.Cost.Steps.{
  Same, modify-Same, inc_rc-Leaves, augmente-Leaves, release_handle-Drops, insert-Same, new-future,
}
use onlyio.Runtime.Cost.Spent.{Acts-Spends, moved, dropped}

module _ {F : Type 0} (rank : F → ℕ) where
  -- No more than before can be queued, and no task is woken.
  pub record Lasts (rt v : Runtime F) : Type 0 where
    pub weighs : (bound : ℕ) → Weighs rank bound rt → Weighs rank bound v
    pub quiet : v.wake_list ≡ rt.wake_list

  pub Lasts-trans : (rt u v : Runtime F) → Lasts rt u → Lasts u v → Lasts rt v
  Lasts-trans rt u v a b = record {
    weighs = λ bound w. b.weighs bound (a.weighs bound w);
    quiet = b.quiet ∙ a.quiet;
  }

  -- The same futures, entries and wakers
  unmoved :
      (rt v : Runtime F)
      → Same rt.store v.store
      → v.pending ≡ rt.pending
      → v.wake_list ≡ rt.wake_list
      → Lasts rt v
  unmoved rt v same p w = record {
    weighs = λ bound h.
        moved rank 0 bound bound rt v h (λ q o. same q) (ap length p) (rw (same 0) (omega arith));
    quiet = w;
  }

  released : (p : ℕ) (rt : Runtime F) → Yields (Lasts rt) (release_handle p rt)
  released p rt =
      Yields-map (release_handle-Drops p rt)
        λ v d. record { weighs = λ bound w. dropped rank p bound rt v d w; quiet = d.quiet }

  -- The polled future is put back into its block.
  put_back :
      (p : ℕ) (rt u : Runtime F) (t t' : RawTask F) (f : F) (a : Acts rt u)
      → rt.store.cells p ≡ some t
      → rank f + cost rank a ≤ rank t.future
      → Lasts rt (with_store u (write_cell u.store p (some (record t' { future = f }))))
  put_back p rt u t t' f a cell l =
      let s = Acts-Spends rank a in
      let put : Runtime F = with_store u (write_cell u.store p (some (record t' { future = f }))) in
      let old_rank : ranks rank u.store p ≡ rank t.future =
        ap (rank_of rank) (s.stays p t.future (ap future_of cell)) in
      let new_rank : ranks rank put.store p ≡ rank f = ground arith in
      record {
        weighs = λ bound w.
            moved rank p (bound + cost rank a) bound u put (s.weighs bound w)
              (λ q o. ground (arith, o)) refl (omega (arith, old_rank, new_rank));
        quiet = s.quiet;
      }

  free_unsed_slab_slot-Lasts :
      (rt : Runtime F)
      → Yields (λ v. Lasts rt v × (v.pending ≡ rt.pending)) (free_unsed_slab_slot rt)
  unfolding free_unsed_slab_slot
  free_unsed_slab_slot-Lasts rt =
      Yields-bind (Yields-self (remove_all rt.store.free_list rt.tasks))
        λ s e. gives (unmoved rt _ (λ q. refl) refl refl, refl)

  module _ (poll_fn : F → Runtime F → Outcome (F × Runtime F))
      (thrifty : Thrifty rank poll_fn) where
    pub poll-Lasts : (p : ℕ) (rt : Runtime F) → Yields (Lasts rt) (poll poll_fn p rt)
    unfolding poll
    poll-Lasts p rt = Yields-bind (Yields-deref (rt.store.cells p)) λ t cell.
        Yields-bind (thrifty t.future rt) λ r paid.
          Yields-bind (Yields-deref (r.1.store.cells p))
            λ t' cell'. gives (put_back p rt r.1 t t' r.0 paid.0 cell paid.1)

    dispatch-Lasts :
        (answer : SyscallNbCompResult) (p : ℕ) (info : TaskInfo) (rt : Runtime F)
        → Yields (Lasts rt) (dispatch poll_fn answer p info rt)
    unfolding dispatch
    dispatch-Lasts error p info rt = fails
    dispatch-Lasts expired p info rt = gives (unmoved rt rt (λ q. refl) refl refl)
    dispatch-Lasts multiple p info rt =
        Yields-map (poll-Lasts p (with_current rt info))
          λ v h. record { weighs = h.weighs; quiet = h.quiet }
    dispatch-Lasts normal p info rt = Yields-bind (Yields-self (next_call info)) λ info' e.
        Yields-bind (modify-Same augmente_syscall_nb p rt.store augmente-Leaves) λ st same.
          Yields-map (poll-Lasts p (with_current (with_store rt st) info')) λ v h.
            Lasts-trans rt (with_current (with_store rt st) info') v
              (unmoved rt (with_current (with_store rt st) info') same refl refl) h

    pub handle_cqe_entry-Lasts :
        (more : ℕ → Bool) (entry : CqeEntry) (rt : Runtime F)
        → Yields (Lasts rt) (handle_cqe_entry poll_fn more entry rt)
    unfolding handle_cqe_entry clone
    handle_cqe_entry-Lasts more entry rt =
        Yields-bind (Yields-self (Slab.index rt.tasks (from_entry entry).tag.task_idx)) λ p e.
          Yields-bind (modify-Same inc_rc p rt.store inc_rc-Leaves) λ st same.
            Yields-bind (Yields-deref (st.cells p)) λ t cell.
              Yields-bind
                (dispatch-Lasts (evaluate_syscall_nb t (from_entry entry).tag.syscall_nb) p
                  (from_entry entry) (with_store rt st))
                λ v h. Yields-bind (maybe_released (more entry.flags) p v) λ u k.
                  Yields-map (released p u) λ w l.
                    Lasts-trans rt (with_store rt st) w
                      (unmoved rt (with_store rt st) same refl refl)
                      (Lasts-trans (with_store rt st) v w h (Lasts-trans v u w k l))
      where
        maybe_released :
            (b : Bool) (p : ℕ) (v : Runtime F)
            → Yields (Lasts v) (if b then ok v else release_handle p v)
        maybe_released true p v = gives (unmoved v v (λ q. refl) refl refl)
        maybe_released false p v = released p v

    -- A spawn adds at most the rank of the new future.
    pub spawn-Weighs :
        (p size align bound : ℕ) (future : F) (rt : Runtime F)
        → rt.store.cells p ≡ none
        → Weighs rank bound rt
        → Yields
            (λ v. Weighs rank (bound + rank future) v × (v.wake_list ≡ rt.wake_list))
            (spawn poll_fn p size align future rt)
    unfolding spawn clone
    spawn-Weighs p size align bound future rt fresh w =
        Yields-bind (new-future size align future) λ made one.
          let born : Store F = write_cell rt.store p (some made.0) in
          Yields-bind (modify-Same inc_rc p born inc_rc-Leaves) λ st same.
            Yields-bind (insert-Same p rt.tasks st) λ r same'.
              let ready : Runtime F = record rt {
                tasks = r.1;
                store = r.2;
                current = initial_poll r.0;
              } in
              let own : future_at r.2 p ≡ some future = same' p ∙ same p ∙ ground (arith, one) in
              let entered : Weighs rank (bound + rank future) ready =
                moved rank p bound (bound + rank future) rt ready w
                  (λ q o. same' q ∙ same q ∙ ground (arith, o)) refl
                  (omega (arith, ap (rank_of rank) own)) in
              Yields-bind (poll-Lasts p ready) λ v h. Yields-bind (released p v) λ u k.
                Yields-map (released p (with_current u rt.current)) λ x l. (
                  l.weighs (bound + rank future)
                      (k.weighs (bound + rank future) (h.weighs (bound + rank future) entered)),
                  l.quiet ∙ k.quiet ∙ h.quiet,
                )

    pub handle_all-Lasts :
        (more : ℕ → Bool) (es : List CqeEntry) (rt : Runtime F)
        → Yields (Lasts rt) (handle_all poll_fn more es rt)
    unfolding handle_all
    handle_all-Lasts more [] rt = gives (unmoved rt rt (λ q. refl) refl refl)
    handle_all-Lasts more (e ∷ es) rt =
        Yields-bind (handle_cqe_entry-Lasts more e rt)
          λ u h. Yields-map (handle_all-Lasts more es u) λ v k. Lasts-trans rt u v h k

  pub check_free-Lasts :
      (rt : Runtime F)
      → Yields (λ (r : Bool × Runtime F). Lasts rt r.1 × (r.1.pending ≡ rt.pending)) (check_free rt)
  unfolding check_free
  check_free-Lasts rt = Yields-bind (free_unsed_slab_slot-Lasts rt) λ v h. gives h
