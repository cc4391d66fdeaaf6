-- ===== src/Runtime/Polls/Whole.antt =====
-- The accounts over a whole `handle_cqe_entry`, `spawn` and `free_unsed_slab_slot`.
use onlyio.Base.{
  ℕ, zero, suc, ◌+◌, ◌-◌, ◌<◌, ◌≡◌, refl, sym, ap, ◌∙◌, true, Bool, inl, inr, Bool-cases,
  Option-cases, List, [], ◌∷◌, Option, some, none, Outcome, ok, ◌>>=◌, arith, Ensures, Ensures-bind,
  Ensures-map, ltb, if◌then◌else◌, count,
}
use onlyio.UserData.{CqeEntry, from_entry, initial_poll}
use onlyio.Task.{evaluate_syscall_nb}
use onlyio.Task.Store.{update, write_cell}
use onlyio.Task.Release.{clone-live, cell-write_cell, write_cell-write_cell}
use onlyio.Slab.{Slab, is_task}
use onlyio.Slab.Map.{lookup, index_of_lookup}
use onlyio.Runtime.{Runtime}
use onlyio.Runtime.Send.{counted}
use onlyio.Runtime.Dispatch.{
  with_store, release_handle, handle_cqe_entry, spawn, free_unsed_slab_slot,
}
use onlyio.Runtime.Frees.{Occupied, free_unsed_slab_slot-Without}
use onlyio.Runtime.Account.{Account-Live}
use onlyio.Runtime.Account.Claims.{clone-Account}
use onlyio.Runtime.Acts.{HasRoom}
use onlyio.Runtime.Acts.Entries.{refs}
use onlyio.Runtime.Acts.Balance.{Balanced, rebalance}
use onlyio.Runtime.Acts.Keep.{Entered-Polling}
use onlyio.Runtime.Acts.Settle.{release_handle-Balanced, insert-Account, new-one, twice-Balanced}
use onlyio.Runtime.Polls.{Lawful, cell_of, poll-Polling, dispatch-Held}

-- The claims outside the runtime after a completion: one less, unless more are to come
abbrev pub after_cqe : (ℕ → ℕ) → (ℕ → Bool) → CqeEntry → ℕ → ℕ
after_cqe extra more entry =
    if more entry.flags
    then extra
    else update extra (from_entry entry).tag.task_idx (extra (from_entry entry).tag.task_idx - 1)

module _ {F : Type 0} (poll_fn : F → Runtime F → Outcome (F × Runtime F)) (law : Lawful poll_fn)
    (extra : ℕ → ℕ) where
  module _ (more : ℕ → Bool) (entry : CqeEntry) (i p : ℕ)
      (e : (from_entry entry).tag.task_idx ≡ i) where
    -- The releases at the end of the handler, on two handles or one
    ended :
        (v : Runtime F)
        → Balanced (update extra i (extra i + 1)) v
        → 0 < extra i
        → lookup v.tasks i ≡ some p
        → Ensures (Balanced (if more entry.flags then extra else update extra i (extra i - 1))) (
            (if more entry.flags then ok v else release_handle p v) >>= λ done.
            release_handle p done)
    ended v b c found = elim (Bool-cases (more entry.flags)) [
      | inl m ↦ rw m (
          Ensures-map
            (release_handle-Balanced (update extra i (extra i + 1)) i p v b (ground arith) found)
            λ u h. rebalance extra u h.0.0 _ h.0.2 h.0.1 (λ j. ground arith))
      | inr m ↦ rw m (
          Ensures-bind
            (release_handle-Balanced (update extra i (extra i + 1)) i p v b (ground arith) found)
            λ u h.
              Ensures-map
                (release_handle-Balanced _ i p u h.0 (ground (arith, c))
                  (ap (λ s. lookup s i) h.1 ∙ found))
                λ w k.
                  rebalance (update extra i (extra i - 1)) w k.0.0 _ k.0.2 k.0.1
                    (λ j. ground (arith, c)))
    ]

  -- A completion for a task with a claim outside the runtime
  pub handle_cqe_entry-Balanced :
      (more : ℕ → Bool) (entry : CqeEntry) (rt : Runtime F)
      → Balanced extra rt
      → 0 < extra (from_entry entry).tag.task_idx
      → Ensures (Balanced (after_cqe extra more entry)) (handle_cqe_entry poll_fn more entry rt)
  unfolding handle_cqe_entry
  handle_cqe_entry-Balanced more entry rt b c =
      let i = (from_entry entry).tag.task_idx in
      let (p, t, l, n) =
        Account-Live rt.tasks rt.store b.0 (λ j. extra j + refs j rt.pending) i b.1
          (omega (arith, c)) in
      let claims : ℕ → ℕ = update extra i (extra i + 1) in
      rw (index_of_lookup rt.tasks i l.found) (
        Ensures-bind
          (clone-Account rt.tasks rt.store b.0 (λ j. extra j + refs j rt.pending) i p b.1
            (omega (arith, c)) l.found)
          λ st a.
            let cloned = rebalance claims (with_store rt st) b.0 _ b.2 a (λ j. ground arith) in
            let (t', cell) = cell_of claims i p (with_store rt st) cloned (ground arith) l.found in
            rw cell (
              Ensures-bind
                (dispatch-Held poll_fn law claims i p rt.tasks
                  (evaluate_syscall_nb t' (from_entry entry).tag.syscall_nb) (with_store rt st)
                  (from_entry entry) refl (ground arith) (cloned, l.found, λ j q f. f))
                λ v h. ended more entry i p refl v h.0 c h.1))

  -- When the count of each task is the number of claims on it, of the entries that wait and of
  -- `extra`, and no waker waits, a spawn into a block at a fresh even address, with room in the slab,
  -- keeps this and CURRENT_TASK, whatever the new future does and spawns as long as it is what `Acts`
  -- has: its own two handles are both given back, and the spawn has no undefined behaviour, but for
  -- the count that the last release of a task that finishes at once reads back from the block it has
  -- just freed.
  pub spawn-Balanced :
      (p size align : ℕ) (future : F) (rt : Runtime F)
      → Balanced extra rt
      → rt.store.cells p ≡ none
      → is_task p ≡ true
      → HasRoom rt.tasks
      → Ensures
          (λ v. Balanced extra v × (v.current ≡ rt.current))
          (spawn poll_fn p size align future rt)
  unfolding spawn
  spawn-Balanced p size align future rt b fresh even room =
      Ensures-bind (new-one size align future) λ made one.
        rw
          (
            clone-live p (write_cell rt.store p (some made.0))
                (cell-write_cell rt.store p (some made.0)) (omega (arith, one)),
            write_cell-write_cell rt.store p (some made.0) (some (counted made.0)),
          )
          (Ensures-bind
            (insert-Account rt.tasks rt.store b.0 (λ j. extra j + refs j rt.pending) p
              (counted made.0) b.1 room even fresh (omega (arith, one)))
            λ r new_task.
              let (none_before, ready) = Entered-Polling extra rt p r b.2 new_task in
              Ensures-bind
                (poll-Polling poll_fn law (update extra r.0 2) r.0 p r.1
                  (record rt { tasks = r.1; store = r.2; current = initial_poll r.0 }) ready)
                λ v w.
                  Ensures-map
                    (twice-Balanced extra r.0 p v rt.current w.balanced none_before w.found)
                    λ u h. (h.0, h.2))

-- Every index of the list of finished tasks is occupied, and on it once.
all_Occupied :
    (s : Slab) (is : List ℕ) → ((i : ℕ) → lookup s i ≡ none → count i is ≡ 0) → Occupied s is
all_Occupied s [] h = tt
all_Occupied s (i ∷ is) h = elim (Option-cases (lookup s i)) [
  | inl e ↦ absurd (ground (arith, h i e))
  | inr found ↦ (found, all_Occupied s is λ j e. ground (arith, h j e))
]

no_claim :
    (n : ℕ) (o : Option ℕ) {claims : ℕ}
    → (if ltb 0 n then none else o) ≡ none
    → (0 < n → claims ≡ 0)
    → (o ≡ none → claims ≡ 0)
    → claims ≡ 0
no_claim zero o e gone unused = unused e
no_claim (suc n) o e gone unused = gone (omega arith)

module _ {F : Type 0} where
  pub free_unsed_slab_slot-Balanced :
      (extra : ℕ → ℕ) (rt : Runtime F)
      → Balanced extra rt
      → (v : Runtime F) × (free_unsed_slab_slot rt ≡ ok v)
        × Balanced extra v
        × (v.store.free_list ≡ [])
        × (v.pending ≡ rt.pending)
  free_unsed_slab_slot-Balanced extra rt (fs, a, quiet) =
      let all =
        free_unsed_slab_slot-Without rt fs a.wf a.once
          (all_Occupied rt.tasks rt.store.free_list λ i h. (a.unused i h).1) in
      let s' = all.0 in
      let at = all.2.1 in
      (
        record rt { tasks = s'; store = record rt.store { free_list = [] } },
        all.1,
        (
          all.2.0.0,
          record {
            wf = all.2.0.1;
            live = λ j q f g.
                let k = a.live j q (ground (arith, at j, f)) (ground (arith, at j, f)) in
                (k.0, record { found = f; cell = k.1.cell; own = k.1.own }, k.2);
            claimed = λ j q f g. a.claimed j q (ground (arith, at j, f)) (ground (arith, at j, f));
            small = a.small;
            gone = λ j g. absurd (omega (arith, g));
            once = λ j. omega arith;
            unused = λ j f. (
              no_claim (count j rt.store.free_list) _ (sym (at j) ∙ f) (a.gone j)
                  (λ e. (a.unused j e).0),
              refl,
            );
          },
          quiet,
        ),
        refl,
        refl,
      )
