-- ===== src/Runtime/Loop/Ready.antt =====
-- `block_on` of a future that does not wait.
use onlyio.Base.{
  ℕ, ◌-◌, ◌^◌, ◌<◌, ◌≡◌, refl, true, ap, ◌∙◌, Bool, List, [], ◌∷◌, ◌++◌, Option, none, some,
  Outcome, ok, arith, length, eq→==,
}
use onlyio.Sqe.{Entry}
use onlyio.UserData.{CqeEntry}
use onlyio.Task.{RawTask, set_task_idx}
use onlyio.Task.Store.{Store, write_cell}
use onlyio.Task.Layout.{IsSmallAlign, new_lem}
use onlyio.Task.Release.{cell-write_cell, write_cell-write_cell}
use onlyio.Slab
use onlyio.Slab.{Slab, is_task}
use onlyio.Slab.Invariant.{WellFormed}
use onlyio.Slab.Map.{lookup}
use onlyio.Slab.Insert.{insert-Inserts}
use onlyio.Runtime.{Runtime}
use onlyio.Runtime.Dispatch.{spawn, with_current}
use onlyio.Runtime.Send.{counted}
use onlyio.Runtime.Handles.{settled}
use onlyio.Runtime.Spawn.{spawn-Settles, readied, first_header}
use onlyio.Runtime.Frees.{free_unsed_slab_slot-Without}
use onlyio.Runtime.Loop.{Turn, block_on, check_free}

module _ {F : Type 0} (p : ℕ) (t : RawTask F) (one : t.ref_counter ≡ 1) where
  indexed_header :
      (store : Store F) (i : ℕ)
      → write_cell (write_cell store p (some (counted t))) p (some (set_task_idx (counted t) i))
        ≡ write_cell store p (some (record t { ref_counter = 2; slab_idx = some i }))
  unfolding set_task_idx
  indexed_header store i =
      write_cell-write_cell store p _ _
      ∙ ap (λ n. write_cell store p (some (record t { ref_counter = n; slab_idx = some i })))
          (omega (arith, one))

  -- The insertion of a new task, as `spawn` does it
  first_insert :
      (s : Slab) (store : Store F) (fs : List ℕ)
      → WellFormed s fs
      → 0 < s.len
      → s.task_count ≡ 0
      → is_task p ≡ true
      → (i : ℕ) × (s' : Slab) × (fs' : List ℕ) × (Slab.insert p s
            (write_cell store p (some (counted t)))
          ≡ ok (i, s', write_cell store p (some (record t { ref_counter = 2; slab_idx = some i }))))
        × WellFormed s' fs'
        × (lookup s' i ≡ some p)
        × (s'.task_count ≡ 1)
  first_insert s store fs wf pos idle even =
      let r =
        insert-Inserts p s (write_cell store p (some (counted t))) (counted t) fs wf pos
          (λ e. absurd (omega (arith, e, idle))) even (cell-write_cell store p _) in
      (
        r.0,
        r.1,
        r.2,
        r.3 ∙ ap (λ st. ok (r.0, r.1, st)) (indexed_header store r.0),
        r.4,
        ground (arith, r.6 r.0),
        omega (arith, r.7, idle),
      )

module _ {F K : Type 0} (poll_fn : F → Runtime F → Outcome (F × Runtime F)) (more : ℕ → Bool)
    (push_multiple : K → List Entry → Option K) (wait : K → Option K)
    (completion : K → List CqeEntry × K) where
  -- `block_on`, on a well-formed slab without tasks and with an empty list of finished ones, of a
  -- future of an alignment up to 32 and a size below 4 GiB less 64 bytes that is done at its first poll and
  -- leaves the runtime as it was: it returns at once, with any fuel and without a submission to the
  -- kernel; the future is dropped, its block freed, the slab well formed and without tasks again, and
  -- CURRENT_TASK as before.
  pub block_on-Returns :
      (turns wakes p size align : ℕ) (future f' : F) (k : K) (rt : Runtime F) (fs : List ℕ)
      → IsSmallAlign align
      → size < 2 ^ 32 - 64
      → is_task p ≡ true
      → WellFormed rt.tasks fs
      → 0 < rt.tasks.len
      → rt.tasks.task_count ≡ 0
      → rt.store.free_list ≡ []
      → ((r : Runtime F) → poll_fn future r ≡ ok (f', r))
      → (rt' : Runtime F) × (fs' : List ℕ) × (block_on poll_fn more push_multiple wait completion
            turns wakes p size align future k rt
          ≡ ok (Turn.finished k rt'))
        × WellFormed rt'.tasks fs'
        × (rt'.tasks.task_count ≡ 0)
        × (rt'.store.cells p ≡ none)
        × (rt'.store.free_list ≡ [])
        × (rt'.store.dropped ≡ f' ∷ rt.store.dropped)
        × (rt'.pending ≡ rt.pending)
        × (rt'.current ≡ rt.current)
  unfolding block_on check_free
  block_on-Returns turns wakes p size align future f' k rt fs a fits even wf pos idle clean polls =
      let n = new_lem size align future a fits in
      let e = first_insert p n.0 n.2 rt.tasks rt.store fs wf pos idle even in
      let ready = readied p rt n.0 e.0 e.1 in
      let spawned = with_current (settled p 0 f' (first_header n.0 e.0) ready) rt.current in
      let ran : spawn poll_fn p size align future rt ≡ ok spawned =
        spawn-Settles poll_fn p size align future rt n.0 e.0 e.1 f' ready (first_header n.0 e.0) 0
          n.1 n.2 e.3 (ap (λ f. poll_fn f ready) n.5 ∙ polls ready) (cell-write_cell rt.store p _)
          refl in
      let listed : spawned.store.free_list ≡ e.0 ∷ [] = ap (λ l. l ++ e.0 ∷ []) clean in
      let all =
        free_unsed_slab_slot-Without spawned e.2 e.4 (rw listed (λ b. ground arith))
          (rw listed ((p, e.5), tt)) in
      let idle' : all.0.task_count ≡ 0 = omega (arith, all.2.2, e.6, ap length listed) in
      (
        record spawned { tasks = all.0; store = record spawned.store { free_list = [] } },
        all.2.0.0,
        rw (ran, all.1, eq→== all.0.task_count 0 idle'),
        all.2.0.1,
        idle',
        ground arith,
        refl,
        refl,
        refl,
        refl,
      )
