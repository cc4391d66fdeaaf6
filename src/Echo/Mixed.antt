-- ===== src/Echo/Mixed.antt =====
-- The completions of a stream and of a commit under it.
use onlyio.Base.{
  ℕ, ◌*◌, ◌%◌, ◌^◌, ◌<◌, ◌≤◌, ◌≡◌, refl, ap, sym, ◌∙◌, true, false, Option, some, Bool, ok, ◌>>=◌,
  arith, leb, lt→ltb,
}
use onlyio.Base.Int.{is_negative, as_u32}
use onlyio.Sqe.{write_fixed}
use onlyio.UserData.{
  CqeEntry, TaskInfo, from_entry, current_udata, info_payload, from_user_data,
  set_current_task_multiple,
}
use onlyio.Task.{RawTask, multiple, evaluate_syscall_nb, evaluate}
use onlyio.BufPool.{RwBuffer, buf_size, checkout_read, read_buf_addr}
use onlyio.BufRing.{release_buf_to_ring}
use onlyio.Runtime.{Runtime, pages, send_commit_write, release_read_buf}
use onlyio.Runtime.Dispatch.{with_current}
use onlyio.Runtime.Send.{InSync, counted, queued, send_lem, evaluate_self, nb_in}
use onlyio.Calls.{Poll}
use onlyio.Calls.Accept.{AcceptStream}
use onlyio.Calls.Read.{ReadStream, ReadStreamState, poll_next_read, drop_rw_buffer}
use onlyio.Calls.Commit.{CommitFuture, commit, poll_commit}
use onlyio.Calls.Slots.{handle}
use onlyio.Echo.{Echo, echo_commit, echo_read, poll_echo}

-- A commit in the poll for a multishot completion goes under the same `user_data`.
commit_udata :
    (c : CqeEntry)
    → c.user_data < 2 ^ 64
    → 0x8000 ≤ (from_entry c).tag.syscall_nb
    → current_udata (set_current_task_multiple true (from_entry c)) ≡ c.user_data
unfolding current_udata set_current_task_multiple from_entry info_payload
commit_udata c l flagged = omega arith

from_entry-tag :
    (c d : CqeEntry)
    → d.user_data ≡ c.user_data
    → (from_entry d).tag.syscall_nb ≡ (from_entry c).tag.syscall_nb
unfolding from_entry
from_entry-tag c d same = ap (λ u. (from_user_data u).syscall_nb) same

module _ {F : Type 0} (buffer_select : ℕ → Option ℕ) (more : ℕ → Bool) where
  -- A write of a commit, queued in the poll for a completion `c` of a stream
  committed_lem :
      (ptr fd len b : ℕ) (c : CqeEntry) (rt : Runtime F) (p : ℕ) (t : RawTask F)
      → InSync rt p t
      → rt.current ≡ from_entry c
      → c.user_data < 2 ^ 64
      → 0x8000 ≤ t.syscall_nb
      → send_commit_write ptr fd len b rt
        ≡ ok (
            queued
              (record rt { current = set_current_task_multiple true rt.current })
              p
              (counted t)
              (write_fixed fd ptr len b)
              c.user_data)
  unfolding send_commit_write set_current_task_multiple
  committed_lem ptr fd len b c rt p t v now l flagged =
      send_lem (write_fixed fd ptr len b)
        (record rt { current = set_current_task_multiple true rt.current }) p t v.indexed v.live
        v.room
      ∙ ap
          (λ u. ok (
            queued (record rt { current = set_current_task_multiple true rt.current }) p (counted t)
              (write_fixed fd ptr len b) u))
          (ap (λ i. current_udata (set_current_task_multiple true i)) now
            ∙ commit_udata c l (omega (arith, v.same, ap (λ (i : TaskInfo). i.tag.syscall_nb) now)))

  read_item :
      (fd b : ℕ) (rt : Runtime F)
      → is_negative rt.current.result ≡ false
      → more rt.current.flags ≡ true
      → buffer_select rt.current.flags ≡ some b
      → b < rt.buffer.read_count
      → poll_next_read buffer_select more (record { fd = fd; state = ReadStreamState.running }) rt
        ≡ ok (
          Poll.ready (some (handle rt b fd)),
          record { fd = fd; state = ReadStreamState.running },
          rt,
        )
  unfolding poll_next_read checkout_read
  read_item fd b rt fine on named l = rw (fine, named, lt→ltb b rt.buffer.read_count l, on) refl

  end_commit :
      (conns : AcceptStream) (reads : ReadStream) (buffer : RwBuffer) (b : ℕ) (rt : Runtime F)
      → buffer.committed ≡ true
      → b < rt.buffer.read_count
      → echo_commit buffer_select more conns reads buffer (CommitFuture.pending b) rt
        ≡ (release_read_buf b rt >>= λ rt'. ok (Poll.ready tt, Echo.done, rt'))
  unfolding echo_commit poll_commit drop_rw_buffer release_read_buf release_buf_to_ring
      read_buf_addr
  end_commit conns reads buffer b rt marked l = rw (lt→ltb b rt.buffer.read_count l, marked) refl

  abbrev pub answered : Runtime F → ℕ → RawTask F → ℕ → ℕ → ℕ → Runtime F
  answered rt p t fd b u =
      queued (record rt { current = set_current_task_multiple true rt.current }) p (counted t)
        (write_fixed fd (handle rt b fd).ptr (2 * as_u32 rt.current.result % 2 ^ 32) (b % 2 ^ 16)) u

  -- The echo server is polled for a completion `c` of its read stream, of no error and with more to
  -- come, which names the read slot `b` and is at most half a buffer, while its task is in step with
  -- CURRENT_TASK and has the multishot bit: it queues the write of the answer from that slot under the
  -- same `user_data` as `c` has. So a later completion `d` of the stream, of another message, is answered
  -- `Multiple`, and the poll for it takes it for the end of the write: it gives the slot of the answer
  -- back to the ring, ends, and does nothing else.
  pub poll_echo-mistakes :
      (conns : AcceptStream) (fd b : ℕ) (c d : CqeEntry) (rt : Runtime F) (p : ℕ) (t : RawTask F)
      → InSync rt p t
      → rt.current ≡ from_entry c
      → c.user_data < 2 ^ 64
      → 0x8000 ≤ t.syscall_nb
      → is_negative rt.current.result ≡ false
      → more rt.current.flags ≡ true
      → buffer_select rt.current.flags ≡ some b
      → b < rt.buffer.read_count
      → leb (2 * as_u32 rt.current.result) (buf_size pages) ≡ true
      → d.user_data ≡ c.user_data
      → (poll_echo buffer_select more
            (Echo.reading conns (record { fd = fd; state = ReadStreamState.running }))
            rt
          ≡ ok (
            Poll.pending,
            Echo.committing conns
                (record { fd = fd; state = ReadStreamState.running })
                (record (handle rt b fd) { committed = true })
                (CommitFuture.pending b),
            answered rt p t fd b c.user_data,
          ))
        × (evaluate_syscall_nb (counted t) (from_entry d).tag.syscall_nb ≡ multiple)
        × (poll_echo buffer_select more
              (Echo.committing conns
                (record { fd = fd; state = ReadStreamState.running })
                (record (handle rt b fd) { committed = true })
                (CommitFuture.pending b))
              (with_current (answered rt p t fd b c.user_data) (from_entry d))
            ≡ (release_read_buf b (with_current (answered rt p t fd b c.user_data) (from_entry d))
                >>= λ rt'. ok (Poll.ready tt, Echo.done, rt')))
  unfolding poll_echo echo_read echo_commit commit poll_commit drop_rw_buffer evaluate_syscall_nb
  poll_echo-mistakes conns fd b c d rt p t v now l flagged fine on named small fits same = (
    rw
        (
          read_item fd b rt fine on named small,
          fits,
          committed_lem (handle rt b fd).ptr fd (2 * as_u32 rt.current.result % 2 ^ 32) (b % 2 ^ 16)
              c rt p t v now l flagged,
        )
        refl,
    ap (evaluate t.syscall_nb)
          (from_entry-tag c d same ∙ ap (λ (i : TaskInfo). i.tag.syscall_nb) (sym now) ∙ v.same)
        ∙ evaluate_self t.syscall_nb (nb_in rt p t v)
        ∙ ground (arith, flagged),
    end_commit conns (record { fd = fd; state = ReadStreamState.running })
        (record (handle rt b fd) { committed = true }) b
        (with_current (answered rt p t fd b c.user_data) (from_entry d)) refl small,
  )
