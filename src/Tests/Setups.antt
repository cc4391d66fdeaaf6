-- ===== src/Tests/Setups.antt =====
-- The runtime that `Runtime::new` makes, the polls of src/calls by a live task, streams, and slices.
use onlyio.Base.{
  ◌≤◌, ℕ, ◌+◌, ◌*◌, ◌/◌, ◌≡◌, refl, true, false, inl, inr, List, [], ◌∷◌, Option, none, some, ok,
  arith, length,
}
use onlyio.Base.Int.{pos, negsuc}
use onlyio.UserData.{TaskInfo, set_current_task_multiple}
use onlyio.BufPool.{RwBuffer, buf_size, checkout_read}
use onlyio.BufPool.Bytes.{
  Memory, bytes_from, load, copy_from_slice, read_slice, write_slice, deref_mut,
}
use onlyio.BufPool.Bytes.Slots.{slot_slice, handles-Apart}
use onlyio.Runtime.{Runtime}
use onlyio.Runtime.Turns.Ends.{Ends}
use onlyio.Runtime.Setup.{Answered, new}
use onlyio.Runtime.Setup.Ready.{Granted, Idle, new-Idle}
use onlyio.Calls.{Poll}
use onlyio.Calls.Accept.{AcceptFuture, AcceptStream, poll_accept, poll_next_accept}
use onlyio.Calls.Read.{ReadFuture, ReadStream, ReadStreamState, poll_read, poll_next_read}
use onlyio.Calls.Socket.{SocketFuture, poll_socket}
use onlyio.Calls.Commit.{CommitFuture, poll_commit}
use onlyio.Calls.Write.{WriteFuture, WriteMultipleFuture, poll_write, poll_write_multiple}
use onlyio.Calls.Acting.Futures.{Does, futures-Acts, poll_write_multiple-Acts}
use onlyio.Stream.{poll_each, poll_next_future}
use onlyio.Stream.Fused.{after}
use onlyio.Stream.Instances.{read_stream}
use onlyio.Stream.Reads.{slots, alive_after, read_state, poll_each-slots}
use onlyio.Tests.Pools.{pool, handle}
use onlyio.Connexion.{Connexion, poll_connexion}
use onlyio.Connexion.Answers.{poll_connexion-error}
use onlyio.Sqe.{write_fixed}
use onlyio.Task.{evaluate_syscall_nb, error}
use onlyio.Runtime.Send.{counted, queued, completed}
use onlyio.Tests.Tasks.{task}
use onlyio.Tests.Runs.{rt, at_call, more, indexed, in_sync}

abbrev pub granted : Answered
granted = record {
  built = true;
  register_files_sparse = none;
  register_buffers = λ iovs. none;
  register_buf_ring = none;
  base = 0x10000;
  is_null = false;
}

pub granted-Granted : Granted granted
granted-Granted = record {
  built = refl;
  files = refl;
  buffers = λ iovs. refl;
  ring = refl;
  some_memory = refl;
}

new-Idle_example : (r : Runtime SocketFuture) × (new granted ≡ ok (inl r)) × Idle r
new-Idle_example = new-Idle granted granted-Granted

abbrev first : Runtime SocketFuture
first = (new-Idle granted granted-Granted).0

-- The slot that a completion names, if bit 0 of the flags is set
abbrev pub buffer_select : ℕ → Option ℕ
buffer_select flags = some (flags / 4)

futures-Acts_example :
    ((f : AcceptFuture) → Does rt (poll_accept f rt))
    × ((s : AcceptStream) → Does rt (poll_next_accept more s rt))
    × ((f : ReadFuture) → Does rt (poll_read buffer_select f rt))
    × ((s : ReadStream) → Does rt (poll_next_read buffer_select more s rt))
    × ((f : CommitFuture) → Does rt (poll_commit f rt))
    × ((f : SocketFuture) → Does rt (poll_socket 16 0x7ff0 f rt))
    × Does rt (poll_write (WriteFuture.init 5 0 12) rt)
futures-Acts_example =
    futures-Acts rt 4096 task indexed refl buffer_select more 16 0x7ff0 (WriteFuture.init 5 0 12)
      (omega arith)

poll_write_multiple-Acts_example :
    Does rt (poll_write_multiple (WriteMultipleFuture.init (5 ∷ 6 ∷ []) handle 12) rt)
poll_write_multiple-Acts_example =
    poll_write_multiple-Acts rt 4096 task indexed refl
      (WriteMultipleFuture.init (5 ∷ 6 ∷ []) handle 12) (omega arith)

-- Two reads, the second the last, and one completion too many
abbrev received : List TaskInfo
received = record (at_call 3) { flags = 2 } ∷ record (at_call 3) { flags = 4 } ∷ at_call 3 ∷ []

poll_each-slots_example :
    poll_each
      (read_stream more buffer_select)
      received
      (record { fd = 9; state = ReadStreamState.running })
      rt
    ≡ ok (
      slots buffer_select more rt.buffer 9 true received,
      record {
        fd = 9;
        state = read_state (alive_after buffer_select more rt.buffer 9 true received);
      },
      after received rt,
    )
poll_each-slots_example = poll_each-slots buffer_select more 9 received rt (
  inr (refl, 0, refl, omega arith),
  (inr (refl, 1, refl, omega arith), (inr (refl, 0, refl, omega arith), tt)),
)

-- The completion with an error
abbrev failing : Runtime ℕ
failing = record rt { current = record (at_call 3) { result = negsuc 103 } }

failed :
    poll_next_future
      (read_stream more buffer_select)
      (record { fd = 9; state = ReadStreamState.running })
      failing
    ≡ ok (Poll.ready none, record { fd = 9; state = ReadStreamState.done }, failing)
unfolding poll_next_future poll_next_read
failed = refl

abbrev memory : Memory
memory = record {
  base = pool.base;
  size = (pool.read_count + length pool.write_rc) * buf_size 1;
  byte = λ a. 0;
}

handles-Apart_example :
    (b : RwBuffer) × (m₁ : Memory) × (m₂ : Memory) × (checkout_read 1 pool 1 9 4 ≡ ok b)
    × (write_slice 1 b ≡ slot_slice 1 pool 1 4096)
    × (read_slice b ≡ slot_slice 1 pool 1 4)
    × (deref_mut 1 handle ≡ slot_slice 1 pool 2 4096)
    × (0x10000 ≤ (write_slice 1 b).ptr)
    × ((write_slice 1 b).ptr + (write_slice 1 b).len ≤ (deref_mut 1 handle).ptr)
    × ((deref_mut 1 handle).ptr + (deref_mut 1 handle).len ≤ 0x10000 + memory.size)
    × (load memory (deref_mut 1 handle) ≡ ok (bytes_from memory.byte 0x12000 4096))
    × (load memory (read_slice b) ≡ ok (bytes_from memory.byte b.ptr 4))
    × (copy_from_slice memory (write_slice 1 b) (80 ∷ 79 ∷ []) ≡ ok m₁)
    × (load m₁ (record { ptr = b.ptr; len = 2 }) ≡ ok (80 ∷ 79 ∷ []))
    × (load m₁ (deref_mut 1 handle) ≡ load memory (deref_mut 1 handle))
    × (copy_from_slice memory (deref_mut 1 handle) (80 ∷ 79 ∷ []) ≡ ok m₂)
    × (load m₂ (record { ptr = handle.ptr; len = 2 }) ≡ ok (80 ∷ 79 ∷ []))
    × (load m₂ (read_slice b) ≡ load memory (read_slice b))
handles-Apart_example =
    handles-Apart 1 pool memory (record { starts = refl; sized = refl }) 1 9 4 handle (80 ∷ 79 ∷ [])
      (omega arith) (omega arith) refl (omega arith) (omega arith) (omega arith)

poll_connexion-error_example :
    (u : ℕ) × (poll_connexion buffer_select (Connexion.reading (ReadFuture.pending 9)) rt
      ≡ ok (
        Poll.pending,
        Connexion.committing
            (record { ptr = 0x10000; buf_idx = 0; fd_idx = 9; bytes = 12; committed = true })
            (CommitFuture.pending 0),
        queued
            (record rt { current = set_current_task_multiple true rt.current })
            4096
            (counted task)
            (write_fixed 9 0x10000 12 0)
            u,
      ))
    × (evaluate_syscall_nb (counted task) (completed u (pos 12) 0).tag.syscall_nb ≡ error)
poll_connexion-error_example =
    poll_connexion-error rt 4096 task buffer_select 9 0 (pos 12) 0 in_sync (omega arith) refl refl
      (omega arith)
