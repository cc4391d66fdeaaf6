-- ===== src/Runtime/Spawn.antt =====
-- `spawn` of src/runtime.rs: what is left of the task after its first poll.
use onlyio.Base.{ℕ, ◌+◌, ◌-◌, ◌≡◌, refl, ap, ◌∙◌, some, Outcome, ok, ◌>>=◌, arith, ne→==, eq→==}
use onlyio.UserData.{initial_poll}
use onlyio.Task.{RawTask, new}
use onlyio.Task.Store.{write_cell}
use onlyio.Task.Release.{clone-live, cell-write_cell, write_cell-write_cell}
use onlyio.Slab
use onlyio.Slab.{Slab}
use onlyio.Runtime.{Runtime}
use onlyio.Runtime.Send.{counted}
use onlyio.Runtime.Dispatch.{with_current, release_handle, poll, spawn}
use onlyio.Runtime.Handles.{settled, polled_by, release_once}

module _ {F : Type 0} where
  -- The header at the first poll: the handle of `spawn` and that of the slab
  abbrev pub first_header : RawTask F → ℕ → RawTask F
  first_header t i = record t { ref_counter = 2; slab_idx = some i }

  -- The runtime at the first poll
  abbrev pub readied : ℕ → Runtime F → RawTask F → ℕ → Slab → Runtime F
  readied p rt t i s = record rt {
    tasks = s;
    store = write_cell rt.store p (some (first_header t i));
    current = initial_poll i;
  }

module _ {F : Type 0} (poll_fn : F → Runtime F → Outcome (F × Runtime F)) (p size align : ℕ)
    (future : F) (rt : Runtime F) (t : RawTask F) where
  poll-readied :
      (i : ℕ) (s : Slab) (f' : F) (after : Runtime F) (t' : RawTask F)
      → poll_fn t.future (readied p rt t i s) ≡ ok (f', after)
      → after.store.cells p ≡ some t'
      → poll poll_fn p (readied p rt t i s) ≡ ok (polled_by p f' t' after)
  unfolding poll
  poll-readied i s f' after t' polled cell = rw (eq→== p p refl, polled, cell)

  released_pair :
      (f' : F) (t' : RawTask F) (after : Runtime F) (j : ℕ)
      → t'.ref_counter ≡ 2 + j
      → (release_handle p (polled_by p f' t' after) >>= λ released.
          release_handle p (with_current released rt.current))
        ≡ ok (with_current (settled p j f' t' after) rt.current)
  released_pair f' t' after j c =
      rw (release_once p f' t' after (omega arith), ne→== (t'.ref_counter - 1) 0 (omega arith))
        (release_once p f' (record t' { ref_counter = t'.ref_counter - 1 })
            (with_current after rt.current) (omega arith)
          ∙ ap (λ m. ok (settled p m f' t' (with_current after rt.current))) (omega arith))

  -- A future that `new` and `insert` accept is polled once by `spawn`, by a task of two references, as the first call of the index that
  -- the slab gave it. If the poll leaves the task alive with `j` references more, then after `spawn` it
  -- has those `j`; with none, the future is dropped, the block
  -- freed and the index put on the free list. CURRENT_TASK is as before.
  pub spawn-Settles :
      (i : ℕ) (s : Slab) (f' : F) (after : Runtime F) (t' : RawTask F) (j : ℕ)
      → new size align future ≡ ok (t, 32)
      → t.ref_counter ≡ 1
      → Slab.insert p rt.tasks (write_cell rt.store p (some (counted t)))
        ≡ ok (i, s, write_cell rt.store p (some (first_header t i)))
      → poll_fn t.future (readied p rt t i s) ≡ ok (f', after)
      → after.store.cells p ≡ some t'
      → t'.ref_counter ≡ 2 + j
      → spawn poll_fn p size align future rt
        ≡ ok (with_current (settled p j f' t' after) rt.current)
  unfolding spawn
  spawn-Settles i s f' after t' j made one inserted polled cell c = rw (
    made,
    clone-live p (write_cell rt.store p (some t)) (cell-write_cell rt.store p (some t))
        (omega arith),
    write_cell-write_cell rt.store p (some t) (some (counted t)),
    inserted,
    poll-readied i s f' after t' polled cell,
    released_pair f' t' after j c,
  )
