-- ===== src/Runtime.antt =====
-- src/runtime.rs: the runtime with its thread-local state, and the calls that queue submissions.
-- `F` is the type of the erased futures. `pages` is the const parameter of the buffer pool, which the
-- runtime has at 1.
pub mod Send
pub mod Submit
pub mod Dispatch
pub mod Handles
pub mod Account
pub mod Acts
pub mod Cost
pub mod Polls
pub mod Turns
pub mod Setup
pub mod Completion
pub mod Multiple
pub mod Spawn
pub mod Frees
pub mod Loop
pub mod Wakers
use onlyio.Base.{
  ℕ, zero, suc, ◌+◌, ◌%◌, ◌^◌, Bool, true, false, List, [], ◌∷◌, ◌++◌, Outcome, ok, ◌>>=◌, ◌>>◌,
  length,
}
use onlyio.Sqe.{Op, Entry, read, accept, write_fixed, recv_multi, accept_multi, connect, socket}
use onlyio.UserData.{
  UserDataPayload, TaskInfo, Waker, into_user_data, current_udata, set_current_task_multiple,
  info_payload, from_waker,
}
use onlyio.UserData.Tags.{Tag}
use onlyio.Task.{RawTask, inc_rc, add_rc, set_multishot, augmente_syscall_nb}
use onlyio.Task.Store.{Store, modify, release}
use onlyio.Slab
use onlyio.Slab.{Slab}
use onlyio.BufPool
use onlyio.BufPool.{BufPool, WBuffer, buf_size, write_buf_ptr}
use onlyio.BufRing.{BufRing, release_buf_to_ring}

abbrev pub pages : ℕ
pages = 1

pub record Runtime (F : Type 0) : Type 0 where
  pub tasks : Slab
  pub store : Store F
  pub buffer : BufPool
  pub buf_ring : BufRing
  pub pending : List Entry
  pub current : TaskInfo
  pub wake_list : List TaskInfo

module _ {F : Type 0} where
  -- `self.tasks[idx]` and an operation on the header of the task
  abbrev pub on_task : (RawTask F → Outcome (RawTask F)) → ℕ → Runtime F → Outcome (Runtime F)
  on_task f idx rt = do
    p ← Slab.index rt.tasks idx
    store ← modify f p rt.store
    ok (record rt { store = store })

  abbrev pub push_pending : Op → ℕ → Runtime F → Runtime F
  push_pending op udata rt = record rt {
    pending = rt.pending ++ record { op = op; user_data = udata } ∷ [];
  }

  -- The lines that the single-shot calls share: the task's count goes up, and the entry is queued
  -- under the current `user_data`.
  unfoldable pub send : Op → Runtime F → Outcome (Runtime F)
  send op rt = do
    rt' ← on_task inc_rc rt.current.tag.task_idx rt
    ok (push_pending op (current_udata rt.current) rt')

  -- The same for the multishot calls: the bit goes to CURRENT_TASK and to the task.
  unfoldable pub send_multishot : Op → Runtime F → Outcome (Runtime F)
  send_multishot op rt = do
    let current = set_current_task_multiple true rt.current
    rt' ←
        on_task (λ t. inc_rc (set_multishot t)) current.tag.task_idx
          (record rt { current = current })
    ok (push_pending op (current_udata current) rt')

  unfoldable pub send_read : ℕ → Runtime F → Outcome (Runtime F)
  unfolding send
  send_read fd rt = send (read fd (buf_size pages % 2 ^ 32) 0) rt

  unfoldable pub send_accept : ℕ → Runtime F → Outcome (Runtime F)
  unfolding send
  send_accept listen_fd rt = send (accept listen_fd) rt

  unfoldable pub send_write : ℕ → ℕ → ℕ → Runtime F → Outcome (Runtime F)
  send_write fd buf_id len rt = do
    rt' ← on_task inc_rc rt.current.tag.task_idx rt
    ptr ← write_buf_ptr pages rt.buffer buf_id
    ok (push_pending (write_fixed fd ptr len buf_id) (current_udata rt.current) rt')

  unfoldable pub send_recv_multishot : ℕ → Runtime F → Outcome (Runtime F)
  unfolding send_multishot
  send_recv_multishot fd rt = send_multishot (recv_multi fd 0) rt

  unfoldable pub send_accept_multishot : ℕ → Runtime F → Outcome (Runtime F)
  unfolding send_multishot
  send_accept_multishot listen_fd rt = send_multishot (accept_multi listen_fd) rt

  -- The bit goes to CURRENT_TASK, and not to the task.
  unfoldable pub send_commit_write : ℕ → ℕ → ℕ → ℕ → Runtime F → Outcome (Runtime F)
  unfolding send
  send_commit_write ptr fd_idx len buf_id rt =
      send (write_fixed fd_idx ptr len buf_id)
        (record rt { current = set_current_task_multiple true rt.current })

  unfoldable pub send_connect : ℕ → ℕ → ℕ → Runtime F → Outcome (Runtime F)
  unfolding send
  send_connect fd addr addrlen rt = send (connect fd addr addrlen) rt

  unfoldable pub send_socket : Runtime F → Outcome (Runtime F)
  unfolding send
  send_socket rt = send socket rt

  -- `release_read_buf`
  unfoldable pub release_read_buf : ℕ → Runtime F → Outcome (Runtime F)
  release_read_buf buf_idx rt = do
    ring ← release_buf_to_ring pages rt.buffer rt.buf_ring buf_idx
    ok (record rt { buf_ring = ring })

  -- The loop of `send_multiple_write`, from the index `idx` on: a clone of the buffer makes an entry
  -- and is consumed by it.
  unfoldable pub push_writes :
      List ℕ → ℕ → WBuffer → ℕ → UserDataPayload → Runtime F → Outcome (Runtime F)
  push_writes [] idx buffer len payload rt = ok rt
  push_writes (fd ∷ fds) idx buffer len payload rt = do
    let udata = into_user_data (record payload { response_gen = idx % 2 ^ 16 })
    c ← BufPool.clone rt.buffer buffer
    w ← BufPool.write c.1 c.0 fd len udata
    push_writes fds (idx + 1) buffer len payload
        (record rt { buffer = w.1; pending = rt.pending ++ w.0 ∷ [] })

  -- The handle `buffer` is dropped at the end.
  unfoldable pub send_multiple_write : List ℕ → WBuffer → ℕ → Runtime F → Outcome (Runtime F)
  unfolding push_writes info_payload
  send_multiple_write fds buffer len rt = do
    pushed ← push_writes fds 0 buffer len (info_payload rt.current) rt
    counted ← on_task (λ t. add_rc t (length fds % 2 ^ 16)) rt.current.tag.task_idx pushed
    buffer' ← BufPool.drop counted.buffer buffer
    ok (record counted { buffer = buffer' })

  -- `advance_syscall_nb` and `Runtime::augmente_syscall_nb`
  unfoldable pub advance_syscall_nb : Tag → Runtime F → Outcome (Runtime F)
  advance_syscall_nb tag rt = on_task augmente_syscall_nb tag.task_idx rt

  -- `Waker::awake`
  unfoldable pub awake : Waker → Runtime F → Runtime F
  awake w rt = record rt { wake_list = rt.wake_list ++ from_waker w ∷ [] }

  -- `Drop for Waker`
  unfoldable pub drop_waker : Waker → Runtime F → Outcome (Runtime F)
  drop_waker w rt = do
    p ← Slab.index rt.tasks w.payload.task_idx
    r ← release p rt.store
    ok (record rt { store = r.1 })

  -- `alloc_write_buffer`
  unfoldable pub alloc_write_buffer : Runtime F → Outcome (WBuffer × Runtime F)
  alloc_write_buffer rt = do
    r ← BufPool.alloc_write pages rt.buffer
    ok (r.0, record rt { buffer = r.1 })
