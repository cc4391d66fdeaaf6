-- ===== src/Runtime/Polls.antt =====
-- Polls, completions and spawns of src/runtime.rs on the accounts of the tasks, for futures that do
-- nothing but what `Acts` has.
pub mod Whole
pub mod Drops
pub mod Nested
pub mod Wakes
use onlyio.Base.{
  ℕ, ◌+◌, ◌-◌, ◌^◌, ◌<◌, ◌≡◌, refl, sym, ap, subst, ◌∙◌, true, false, Bool, inl, inr, Bool-cases,
  List, some, none, Outcome, ok, arith, Ensures, Ensures.returns, Ensures.stops, Ensures-bind,
  Ensures-map, ltb, if◌then◌else◌, ◌==◌,
}
use onlyio.UserData.{TaskInfo, CqeEntry, from_entry, initial_poll}
use onlyio.Task.{
  RawTask, SyscallNbCompResult, normal, expired, multiple, error, augmente_syscall_nb,
  evaluate_syscall_nb, new,
}
use onlyio.Task.Store.{Store, update, write_cell, clone}
use onlyio.Task.Release.{clone-live}
use onlyio.Slab
use onlyio.Slab.{Slab, is_task}
use onlyio.Slab.Map.{lookup, index_of_lookup}
use onlyio.Runtime.{Runtime}
use onlyio.Runtime.Dispatch.{
  poll, dispatch, next_call, with_store, with_current, release_handle, handle_cqe_entry, spawn,
}
use onlyio.Runtime.Account.{Account, Live, Account-Live}
use onlyio.Runtime.Account.Claims.{holder, modify-Account, clone-Account, augmente-Adds}
use onlyio.Runtime.Acts.{Acts, HasRoom}
use onlyio.Runtime.Acts.Entries.{refs}
use onlyio.Runtime.Acts.Balance.{Balanced, Polling, Keeps, rebalance, Polling-index}
use onlyio.Runtime.Acts.Keep.{Acts-Polling, Entered-Polling}
use onlyio.Runtime.Acts.Settle.{refuture-Account, release_handle-Balanced, insert-Account, new-one}

-- When the task of CURRENT_TASK is live and the counts are in order, a poll does nothing but act on the
-- runtime.
abbrev pub Lawful : {F : Type 0} → (F → Runtime F → Outcome (F × Runtime F)) → Type 0
Lawful {F} poll_fn =
    (f : F) (rt : Runtime F) (extra : ℕ → ℕ) (i p : ℕ) (s : Slab) (t : RawTask F)
    → Polling extra i p s rt
    → rt.store.cells p ≡ some t
    → Ensures (λ (r : F × Runtime F). Acts rt r.1) (poll_fn f rt)

module _ {F : Type 0} where
  -- The block of a task that is held
  pub cell_of :
      (extra : ℕ → ℕ) (i p : ℕ) (rt : Runtime F)
      → Balanced extra rt
      → 0 < extra i
      → lookup rt.tasks i ≡ some p
      → (t : RawTask F) × (rt.store.cells p ≡ some t)
  cell_of extra i p rt b c found =
      let (t, l, e) =
        holder rt.tasks rt.store b.0 (λ j. extra j + refs j rt.pending) i p b.1 (omega (arith, c))
          found in
      (t, l.cell)

module _ {F : Type 0} (poll_fn : F → Runtime F → Outcome (F × Runtime F)) (law : Lawful poll_fn)
    (extra : ℕ → ℕ) (i p : ℕ) (s : Slab) where
  pub poll-Polling :
      (rt : Runtime F) → Polling extra i p s rt → Ensures (Polling extra i p s) (poll poll_fn p rt)
  unfolding poll
  poll-Polling rt v =
      let (t, cell) = cell_of extra i p rt v.balanced v.held v.found in
      rw cell (
        Ensures-bind (law t.future rt extra i p s t v cell) λ r acts.
          let w = Acts-Polling extra i p s acts v in
          let (t', cell') = cell_of extra i p r.1 w.balanced w.held w.found in
          rw cell' (
            returns (record {
              balanced = (
                w.balanced.0,
                refuture-Account r.1.tasks r.1.store w.balanced.0
                    (λ j. extra j + refs j r.1.pending) i p t' r.0 w.balanced.1
                    (omega (arith, w.held)) w.found cell',
                w.balanced.2,
              );
              held = w.held;
              current = w.current;
              found = w.found;
              keeps = w.keeps;
            })))

  -- The task is held, and its block is at `p`.
  abbrev pub Held : Runtime F → Type 0
  Held rt = Balanced extra rt × (lookup rt.tasks i ≡ some p) × Keeps s rt.tasks

  polled :
      (rt : Runtime F) (info : TaskInfo)
      → info.tag.task_idx ≡ i
      → 0 < extra i
      → Held rt
      → Ensures Held (poll poll_fn p (with_current rt info))
  polled rt info e c h =
      Ensures-map
        (poll-Polling (with_current rt info)
          (record { balanced = h.0; held = c; current = e; found = h.1; keeps = h.2 }))
        λ v w. (w.balanced, w.found, w.keeps)

  next_call-idx :
      (info : TaskInfo)
      → Ensures (λ (t : TaskInfo). t.tag.task_idx ≡ info.tag.task_idx) (next_call info)
  next_call-idx info = elim (Bool-cases (ltb (info.tag.syscall_nb + 1) (2 ^ 16))) [
    | inl b ↦ rw b (returns refl)
    | inr b ↦ rw b stops
  ]

  pub dispatch-Held :
      (answer : SyscallNbCompResult) (rt : Runtime F) (info : TaskInfo)
      → info.tag.task_idx ≡ i
      → 0 < extra i
      → Held rt
      → Ensures Held (dispatch poll_fn answer p info rt)
  unfolding dispatch
  dispatch-Held error rt info e c h = stops
  dispatch-Held expired rt info e c h = returns h
  dispatch-Held multiple rt info e c h = polled rt info e c h
  dispatch-Held normal rt info e c h = Ensures-bind (next_call-idx info) λ info' same.
      Ensures-bind
        (modify-Account rt.tasks rt.store h.0.0 (λ j. extra j + refs j rt.pending) i p h.0.1
          (omega (arith, c)) h.1 augmente_syscall_nb 0 augmente-Adds)
        λ st a.
          polled (with_store rt st) info' (same ∙ e) c
            (rebalance extra (with_store rt st) h.0.0 _ h.0.2 a (λ j. ground arith), h.1, h.2)
