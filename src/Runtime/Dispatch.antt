-- ===== src/Runtime/Dispatch.antt =====
-- Completions, spawning and waking: the parts of src/runtime.rs that poll tasks. What a future does
-- when it is polled is the parameter `poll_fn`; `more` is `io_uring::cqueue::more`.
use onlyio.Base.{
  ℕ, ◌+◌, ◌^◌, Bool, List, [], ◌∷◌, some, Outcome, ok, panics, deref, explicit, add_overflow, ◌>>=◌,
  ltb, if◌then◌else◌,
}
use onlyio.UserData.{TaskInfo, CqeEntry, from_entry, initial_poll}
use onlyio.Task.{
  SyscallNbCompResult, expired, normal, multiple, error, evaluate_syscall_nb, augmente_syscall_nb,
  new,
}
use onlyio.Task.Store.{Store, write_cell, modify, clone, release}
use onlyio.Slab
use onlyio.Slab.{Slab}
use onlyio.Runtime.{Runtime}

-- The loop of `free_unsed_slab_slot`
unfoldable pub remove_all : List ℕ → Slab → Outcome Slab
remove_all [] s = ok s
remove_all (i ∷ is) s = do s' ← Slab.remove_dropped_task s i; remove_all is s'

-- `task_info.tag.syscall_nb += 1`, a checked `u16` addition
abbrev pub next_call : TaskInfo → Outcome TaskInfo
next_call t =
    if ltb (t.tag.syscall_nb + 1) (2 ^ 16)
    then ok
        (record t { tag = record { task_idx = t.tag.task_idx; syscall_nb = t.tag.syscall_nb + 1 } })
    else panics add_overflow

module _ {F : Type 0} where
  abbrev pub with_store : Runtime F → Store F → Runtime F
  with_store rt s = record rt { store = s }

  abbrev pub with_current : Runtime F → TaskInfo → Runtime F
  with_current rt t = record rt { current = t }

  -- A release that drops a handle: its count is not used.
  unfoldable pub release_handle : ℕ → Runtime F → Outcome (Runtime F)
  release_handle p rt = do r ← release p rt.store; ok (with_store rt r.1)

  unfoldable pub free_unsed_slab_slot : Runtime F → Outcome (Runtime F)
  unfolding remove_all
  free_unsed_slab_slot rt = do
    tasks ← remove_all rt.store.free_list rt.tasks
    ok (record rt { tasks = tasks; store = record rt.store { free_list = [] } })

module _ {F : Type 0} (poll_fn : F → Runtime F → Outcome (F × Runtime F)) where
  -- `Task::poll`: the future is polled where it lies in its block.
  unfoldable pub poll : ℕ → Runtime F → Outcome (Runtime F)
  poll p rt = do
    t ← deref (rt.store.cells p)
    r ← poll_fn t.future rt
    t' ← deref (r.1.store.cells p)
    ok (with_store r.1 (write_cell r.1.store p (some (record t' { future = r.0 }))))

  -- The four answers of `evaluate_syscall_nb`
  unfoldable pub dispatch : SyscallNbCompResult → ℕ → TaskInfo → Runtime F → Outcome (Runtime F)
  unfolding poll
  dispatch error p info rt = panics explicit
  dispatch expired p info rt = ok rt
  dispatch normal p info rt = do
    info' ← next_call info
    store ← modify augmente_syscall_nb p rt.store
    poll p (with_current (with_store rt store) info')
  dispatch multiple p info rt = poll p (with_current rt info)

  -- `handle_cqe_entry`. The clone of the task is released at the end of its scope, after the release
  -- for the completion itself.
  unfoldable pub handle_cqe_entry : (ℕ → Bool) → CqeEntry → Runtime F → Outcome (Runtime F)
  unfolding dispatch release_handle
  handle_cqe_entry more entry rt = do
    let info = from_entry entry
    p ← Slab.index rt.tasks info.tag.task_idx
    store ← clone p rt.store
    t ← deref (store.cells p)
    polled ← dispatch (evaluate_syscall_nb t info.tag.syscall_nb) p info (with_store rt store)
    done ← (if more entry.flags then ok polled else release_handle p polled)
    release_handle p done

  -- `spawn`, for a future of the given size and alignment and a block at `p`. The handle is released
  -- once for the poll, and once more at the end of its scope.
  unfoldable pub spawn : ℕ → ℕ → ℕ → F → Runtime F → Outcome (Runtime F)
  unfolding poll release_handle
  spawn p size align future rt = do
    made ← new size align future
    cloned ← clone p (write_cell rt.store p (some made.0))
    r ← Slab.insert p rt.tasks cloned
    let old_context = rt.current
    let ready = record rt { tasks = r.1; store = r.2; current = initial_poll r.0 }
    polled ← poll p ready
    released ← release_handle p polled
    release_handle p (with_current released old_context)

  -- One task of the wake list
  unfoldable pub wake_one : TaskInfo → Runtime F → Outcome (Runtime F)
  unfolding poll release_handle
  wake_one info rt = do
    p ← Slab.index rt.tasks info.tag.task_idx
    store ← clone p rt.store
    polled ← poll p (with_current (with_store rt store) info)
    release_handle p polled
