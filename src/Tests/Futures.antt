-- ===== src/Tests/Futures.antt =====
-- Streams, connects and writes to two descriptors.
use onlyio.Base.{ℕ, ◌≡◌, refl, true, List, [], ◌∷◌, none, some, ok, arith}
use onlyio.Base.Int.{pos}
use onlyio.Sqe.{Entry, connect, write_fixed}
use onlyio.UserData.{TaskInfo, info_payload, into_user_data}
use onlyio.Task.{RawTask, augmente_syscall_nb, evaluate_syscall_nb, normal, expired}
use onlyio.Task.Store.{write_cell}
use onlyio.BufPool.{BufPool}
use onlyio.BufPool.Invariant.{WellFormed, HasRc}
use onlyio.Runtime.{Runtime, send_multiple_write, advance_syscall_nb}
use onlyio.Runtime.Send.{completed, counted, queued}
use onlyio.Runtime.Dispatch.{with_current}
use onlyio.Runtime.Multiple.{entries, send_multiple_write-Queues, entries-Expires}
use onlyio.Calls.{Poll}
use onlyio.Calls.Socket.{SocketFuture, poll_socket}
use onlyio.Calls.Ends.{answers, poll_socket-slot}
use onlyio.Calls.Fanout.{Finishes, poll_each-Finishes}
use onlyio.Tests.Tasks.{task, store}
use onlyio.Tests.Pools.{pool, handle, pool-WellFormed}
use onlyio.Tests.Runs.{rt, at_call, more, in_sync, in_range, indexed}

-- A completion of the write number `n`
abbrev written : ℕ → TaskInfo
written n = record (at_call 3) { response_gen = n }

-- Two connections, the second with no `more`, and one completion too many
abbrev connections : List TaskInfo
connections = record (at_call 3) { flags = 2 } ∷ at_call 3 ∷ at_call 3 ∷ []

yields :
    answers more true connections
    ≡ Poll.ready (some 12) ∷ Poll.ready (some 12) ∷ Poll.ready none ∷ []
yields = refl

poll_socket-slot_example :
    (u : ℕ) × (u₂ : ℕ) × (poll_socket 16 0x7ff0 (SocketFuture.connecting 0 64) rt
      ≡ ok (
        Poll.pending,
        SocketFuture.connecting 12 64,
        queued rt 4096 (counted task) (connect 12 0x7ff0 16) u,
      ))
    × (poll_socket 16 0x7f80 (SocketFuture.connecting 12 64) rt
        ≡ ok (Poll.ready 12, SocketFuture.pending, rt))
poll_socket-slot_example =
    poll_socket-slot 16 0x7ff0 0x7f80 64 rt rt 4096 4096 task task in_sync in_sync

-- The runtime with the pool of which slot 0 has one handle
abbrev writing : Runtime ℕ
writing = record rt { buffer = pool }

send_multiple_write-Queues_example :
    (p' : BufPool) × (send_multiple_write (5 ∷ 6 ∷ []) handle 12 writing
      ≡ ok (record writing {
        pending = entries handle 12 (info_payload (at_call 3)) (5 ∷ 6 ∷ []) 0;
        store = write_cell store 4096 (some (record task { ref_counter = 4 }));
        buffer = p';
      }))
    × WellFormed p'
    × HasRc p' 0 0
    × (p'.write_rc ≡ 0 ∷ 0 ∷ [])
send_multiple_write-Queues_example =
    send_multiple_write-Queues handle 12 0 1 (5 ∷ 6 ∷ []) writing 4096 task pool-WellFormed refl
      refl (omega arith) (omega arith) (omega arith) (omega arith) indexed refl (omega arith)

-- The task after the last completion
abbrev advanced : Runtime ℕ
advanced = record (with_current rt (written 0)) {
  store = write_cell store 4096 (some (record task { syscall_nb = 4 }));
}

advance :
    advance_syscall_nb (written 0).tag (with_current (with_current rt (written 1)) (written 0))
    ≡ ok advanced
unfolding advance_syscall_nb augmente_syscall_nb
advance = rw indexed refl

poll_each-Finishes_example :
    Finishes 12 handle (written 1 ∷ []) (6 ∷ []) (5 ∷ 6 ∷ []) [] rt (written 0) 5 advanced
poll_each-Finishes_example =
    poll_each-Finishes 12 handle (written 1 ∷ []) (6 ∷ []) (5 ∷ 6 ∷ []) [] rt (written 0) 5 advanced
      (λ a. ground arith) (refl, (λ e. omega arith), refl) refl (λ e. omega arith) advance

-- The entry of `handle` for the descriptor `fd`, the number `n` of the list
abbrev queued_write : ℕ → ℕ → Entry
queued_write fd n = record {
  op = write_fixed fd 0x12000 12 2;
  user_data = into_user_data (record (info_payload (at_call 3)) { response_gen = n });
}

entries-Expires_example :
    (t' : RawTask ℕ) × (evaluate_syscall_nb task
        (completed (queued_write 6 1).user_data (pos 12) 0).tag.syscall_nb
      ≡ normal)
    × (augmente_syscall_nb task ≡ ok t')
    × (evaluate_syscall_nb t' (completed (queued_write 5 0).user_data (pos 12) 0).tag.syscall_nb
        ≡ expired)
entries-Expires_example =
    entries-Expires (at_call 3) task handle 12 (5 ∷ 6 ∷ []) 1 0 {first = queued_write 6 1}
      {other = queued_write 5 0} (pos 12) (pos 12) 0 0 in_range refl (omega arith) refl refl
