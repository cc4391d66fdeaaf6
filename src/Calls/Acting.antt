-- ===== src/Calls/Acting.antt =====
-- The polls of src/calls, as what `Acts` allows a future to do.
pub mod Futures
pub mod Costs
use onlyio.Base.{
  ℕ, ◌+◌, ◌%◌, ◌^◌, ◌<◌, ◌≡◌, refl, ◌∙◌, not, Bool, Bool-cases, ◌⊎◌, inl, inr, List, [], Option,
  Option-cases, some, none, Outcome, ok, expect, expect_none, assert_failed, sub_overflow, ◌>>=◌,
  arith, if◌then◌else◌, Ensures, Ensures.returns, Ensures.stops, Ensures-bind, Ensures-map,
  Ensures-assert, Ensures-self, Defined-bind, Defined-ok, Ensures-if, Defined, Defined-expect,
  Defined-assert, ◌==◌, length, get_elem?, set, ltb, true,
}
use onlyio.Base.Int.{ℤ, is_negative, is_not_positive, as_u32}
use onlyio.Sqe.{Op}
use onlyio.Task.{RawTask, inc_rc, add_rc, set_multishot, augmente_syscall_nb, checked_add16}
use onlyio.Words.{set_multiple, rank}
use onlyio.UserData.{info_payload, set_current_task_multiple}
use onlyio.Slab
use onlyio.BufPool
use onlyio.BufPool.{WBuffer, RwBuffer, checkout_read, read_buf_addr}
use onlyio.BufRing.{release_buf_to_ring}
use onlyio.Runtime.{
  Runtime, pages, on_task, send, send_multishot, send_commit_write, send_multiple_write,
  advance_syscall_nb, release_read_buf,
}
use onlyio.Runtime.Acts.{
  Acts, Acts.done, Acts.sends, Acts.sends_multishot, Acts.commits, Acts.fans_out, Acts.advances,
  Acts.goes_on, Acts.uses_buffers,
}
use onlyio.Runtime.Acts.Writes.{clone-same, push_writes-entries, drop-Defined}
use onlyio.Calls.{Poll, Polled}
use onlyio.Calls.Accept.{
  AcceptFuture, AcceptStream, AcceptStreamState, poll_accept, poll_next_accept,
}

module _ {F : Type 0} where
  inc_rc-Defined : (t : RawTask F) → Defined (inc_rc t)
  unfolding inc_rc
  inc_rc-Defined t =
      Ensures-bind (Defined-expect (checked_add16 t.ref_counter 1) expect_none) λ next d.
        Ensures-assert (not (set_multiple t.ref_counter == set_multiple next)) assert_failed
          (returns tt)

  add_rc-Defined : (count : ℕ) (t : RawTask F) → Defined (add_rc t count)
  unfolding add_rc
  add_rc-Defined count t =
      Ensures-bind (Defined-expect (checked_add16 t.ref_counter count) expect_none) λ next d.
        Ensures-assert (not (set_multiple t.ref_counter == set_multiple next)) assert_failed
          (returns tt)

  augmente-Defined : (t : RawTask F) → Defined (augmente_syscall_nb t)
  unfolding augmente_syscall_nb
  augmente-Defined t =
      Ensures-bind (Defined-expect (checked_add16 (rank t.syscall_nb) 1) expect_none)
        λ next d. returns tt

  pub release_read_buf-Acts :
      (buf_idx : ℕ) (rt : Runtime F) → Ensures (Acts rt) (release_read_buf buf_idx rt)
  unfolding release_read_buf release_buf_to_ring read_buf_addr
  release_read_buf-Acts buf_idx rt =
      Ensures-bind
        (Defined-bind (Ensures-assert (ltb buf_idx rt.buffer.read_count) assert_failed Defined-ok)
          λ addr. Defined-ok)
        λ ring d. returns (uses_buffers done rt.buffer ring)

  on_task-Defined :
      (rt : Runtime F) (idx p : ℕ) (t : RawTask F) (f : RawTask F → Outcome (RawTask F))
      → Slab.index rt.tasks idx ≡ ok p
      → rt.store.cells p ≡ some t
      → Defined (f t)
      → Defined (on_task f idx rt)
  on_task-Defined rt idx p t f indexed cell d =
      rw (indexed, cell) (Defined-bind (Defined-bind d λ u. Defined-ok) λ u. Defined-ok)

  -- The task of CURRENT_TASK is live.
  module _ (rt : Runtime F) (p : ℕ) (t : RawTask F)
      (indexed : Slab.index rt.tasks rt.current.tag.task_idx ≡ ok p)
      (cell : rt.store.cells p ≡ some t) where
    send-Defined : (op : Op) → Defined (send op rt)
    unfolding send
    send-Defined op =
        Defined-bind
          (on_task-Defined rt rt.current.tag.task_idx p t inc_rc indexed cell (inc_rc-Defined t))
          λ u. Defined-ok

    pub send-Acts : (op : Op) → Ensures (Acts rt) (send op rt)
    send-Acts op = Ensures-map (Ensures-self (send-Defined op)) λ v e. sends done op e

    send_multishot-Defined : (op : Op) → Defined (send_multishot op rt)
    unfolding send_multishot set_current_task_multiple
    send_multishot-Defined op =
        Defined-bind
          (on_task-Defined (record rt { current = set_current_task_multiple true rt.current })
            rt.current.tag.task_idx p t (λ u. inc_rc (set_multishot u)) indexed cell
            (inc_rc-Defined (set_multishot t)))
          λ u. Defined-ok

    pub send_multishot-Acts : (op : Op) → Ensures (Acts rt) (send_multishot op rt)
    send_multishot-Acts op =
        Ensures-map (Ensures-self (send_multishot-Defined op)) λ v e. sends_multishot done op e

    send_commit_write-Defined :
        (ptr fd len buf_id : ℕ) → Defined (send_commit_write ptr fd len buf_id rt)
    unfolding send_commit_write send set_current_task_multiple
    send_commit_write-Defined ptr fd len buf_id =
        Defined-bind
          (on_task-Defined (record rt { current = set_current_task_multiple true rt.current })
            rt.current.tag.task_idx p t inc_rc indexed cell (inc_rc-Defined t))
          λ u. Defined-ok

    pub send_commit_write-Acts :
        (ptr fd len buf_id : ℕ) → Ensures (Acts rt) (send_commit_write ptr fd len buf_id rt)
    send_commit_write-Acts ptr fd len buf_id =
        Ensures-map (Ensures-self (send_commit_write-Defined ptr fd len buf_id))
          λ v e. commits done ptr fd len buf_id e

    advance_syscall_nb-Defined : Defined (advance_syscall_nb rt.current.tag rt)
    unfolding advance_syscall_nb
    advance_syscall_nb-Defined =
        on_task-Defined rt rt.current.tag.task_idx p t augmente_syscall_nb indexed cell
          (augmente-Defined t)

    pub advance_syscall_nb-Acts : Ensures (Acts rt) (advance_syscall_nb rt.current.tag rt)
    advance_syscall_nb-Acts =
        Ensures-map (Ensures-self advance_syscall_nb-Defined) λ v e. advances done e

    pub send_multiple_write-Defined :
        (fds : List ℕ) (buffer : WBuffer) (len : ℕ)
        → Defined (send_multiple_write fds buffer len rt)
    unfolding send_multiple_write
    send_multiple_write-Defined fds buffer len =
        Ensures-bind (push_writes-entries buffer len (info_payload rt.current) fds 0 rt) λ pushed h.
          Defined-bind
            (on_task-Defined pushed rt.current.tag.task_idx p t
              (λ u. add_rc u (length fds % 2 ^ 16)) (rw h.1 indexed) (rw h.1 cell)
              (add_rc-Defined (length fds % 2 ^ 16) t))
            λ counted. Defined-bind (drop-Defined counted.buffer buffer) λ b. Defined-ok
