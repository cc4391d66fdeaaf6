-- ===== src/Runtime/Acts.antt =====
-- What a future does to the runtime when it is polled: it calls the functions of src/runtime.rs that
-- queue submissions, moves on to its next call, uses buffers, and spawns. Wakers are left out.
pub mod Entries
pub mod Balance
pub mod Queue
pub mod Writes
pub mod Settle
pub mod Keep
pub mod Sequence
use onlyio.Base.{ℕ, true, List, none, some, Outcome, ok, ◌≡◌, ◌>>=◌, ◌*◌, length, ◌<◌, ◌^◌}
use onlyio.Sqe.{Op}
use onlyio.UserData.{set_to_next_task, initial_poll}
use onlyio.Task.{RawTask, new}
use onlyio.Task.Store.{write_cell, Store}
use onlyio.Slab
use onlyio.Slab.{Slab, is_task}
use onlyio.BufPool.{BufPool, WBuffer}
use onlyio.BufRing.{BufRing}
use onlyio.Runtime.{
  Runtime, send, send_multishot, send_commit_write, send_multiple_write, advance_syscall_nb,
}
use onlyio.Runtime.Send.{counted}
use onlyio.Runtime.Dispatch.{with_store, with_current, release_handle}

-- The slab, of one slot or more, takes one more task and stays below 2 ^ 31 slots.
abbrev pub HasRoom : Slab → Type 0
HasRoom s = (0 < s.len) × (s.task_count ≡ s.len → s.len * 2 < 2 ^ 31)

module _ {F : Type 0} where
  -- The end of a spawn of the block at `p`: the polled future is back in its block, the two handles are
  -- released, and CURRENT_TASK is restored.
  abbrev pub settle : ℕ → F → RawTask F → Runtime F → Runtime F → Outcome (Runtime F)
  settle p f' t' after before =
      release_handle p
        (with_store after (write_cell after.store p (some (record t' { future = f' }))))
      >>= λ released. release_handle p (with_current released before.current)

  pub data Acts : Runtime F → Runtime F → Type 0 where
    done : {rt : Runtime F} → Acts rt rt
    sends : {rt u v : Runtime F} → Acts rt u → (op : Op) → send op u ≡ ok v → Acts rt v
    sends_multishot :
        {rt u v : Runtime F} → Acts rt u → (op : Op) → send_multishot op u ≡ ok v → Acts rt v
    commits :
        {rt u v : Runtime F}
        → Acts rt u
        → (ptr fd len buf_id : ℕ) → send_commit_write ptr fd len buf_id u ≡ ok v
        → Acts rt v
    fans_out :
        {rt u v : Runtime F}
        → Acts rt u
        → (fds : List ℕ) (buffer : WBuffer) (len : ℕ) → length fds < 2 ^ 16
        → send_multiple_write fds buffer len u ≡ ok v
        → Acts rt v
    advances :
        {rt u v : Runtime F} → Acts rt u → advance_syscall_nb u.current.tag u ≡ ok v → Acts rt v
    goes_on :
        {rt u : Runtime F} → Acts rt u → Acts rt (record u { current = set_to_next_task u.current })
    uses_buffers :
        {rt u : Runtime F}
        → Acts rt u
        → (b : BufPool) (r : BufRing) → Acts rt (record u { buffer = b; buf_ring = r })
    spawns :
        {rt u after v : Runtime F}
        → Acts rt u
        → (p i size align offset : ℕ) (future f' : F) (t t' : RawTask F) (s : Slab) (st : Store F)
        → u.store.cells p ≡ none
        → is_task p ≡ true
        → HasRoom u.tasks
        → new size align future ≡ ok (t, offset)
        → Slab.insert p u.tasks (write_cell u.store p (some (counted t))) ≡ ok (i, s, st)
        → Acts (record u { tasks = s; store = st; current = initial_poll i }) after
        → after.store.cells p ≡ some t'
        → settle p f' t' after u ≡ ok v
        → Acts rt v
