-- ===== src/Runtime/Wakers.antt =====
-- `Waker` of src/runtime.rs.
use onlyio.Base.{ℕ, ◌≡◌, refl, Bool, some, Outcome, ok, undefined, arith}
use onlyio.UserData.{Waker, CqeEntry, from_entry}
use onlyio.Task.{RawTask}
use onlyio.Task.Store.{freed, release, clone}
use onlyio.Slab
use onlyio.Runtime.{Runtime, drop_waker}
use onlyio.Runtime.Dispatch.{handle_cqe_entry}

module _ {F : Type 0} (poll_fn : F → Runtime F → Outcome (F × Runtime F)) (more : ℕ → Bool) where
  -- A waker of a live task with one reference, as that of the entry for which it waits: when the waker
  -- is dropped, the block of the task is freed and its slot put on the free list. A completion that
  -- names the task and is handled before the slab has given the slot up uses the freed block.
  pub drop_waker-undefined :
      (w : Waker) (p : ℕ) (t : RawTask F) (entry : CqeEntry) (rt : Runtime F)
      → Slab.index rt.tasks w.payload.task_idx ≡ ok p
      → rt.store.cells p ≡ some t
      → t.ref_counter ≡ 1
      → (from_entry entry).tag.task_idx ≡ w.payload.task_idx
      → (drop_waker w rt ≡ ok (record rt { store = freed p t rt.store }))
        × (handle_cqe_entry poll_fn more entry (record rt { store = freed p t rt.store })
            ≡ undefined)
  unfolding drop_waker release clone handle_cqe_entry
  drop_waker-undefined w p t entry rt indexed cell one names =
      (rw (indexed, cell, one) refl, rw (names, indexed) (ground arith))
