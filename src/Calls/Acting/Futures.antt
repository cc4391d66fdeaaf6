-- ===== src/Calls/Acting/Futures.antt =====
-- Each future and stream of src/calls, polled by a live task.
use onlyio.Base.{
  lt→ltb, ◌+◌, ◌*◌, ℕ, ◌%◌, ◌^◌, ◌<◌, ◌≡◌, not, Bool, Option, some, none, ok, expect_none,
  assert_failed, sub_overflow, Ensures, Ensures.returns, Ensures.stops, Ensures-bind,
  Ensures-assert, Ensures-if, Defined-ok, Defined-expect, Defined, ◌==◌, ltb, length, get_elem?,
  Ensures-self,
}
use onlyio.Base.Int.{is_negative, is_not_positive, as_u32}
use onlyio.Sqe.{read, accept, write_fixed, recv_multi, accept_multi, connect, socket}
use onlyio.Task.{RawTask}
use onlyio.Task.Store.{pred?}
use onlyio.Slab.{u32_max}
use onlyio.Slab
use onlyio.BufPool
use onlyio.BufPool.{WBuffer, RwBuffer, checkout_read, buf_size, write_buf_ptr}
use onlyio.Runtime.{
  send, Runtime, pages, send_read, send_accept, send_write, send_recv_multishot,
  send_accept_multishot, send_connect, send_socket, release_read_buf,
}
use onlyio.Runtime.Acts.{Acts, Acts.done, Acts.fans_out, Acts.goes_on, Acts.uses_buffers}
use onlyio.Runtime.Acts.Writes.{clone-same}
use onlyio.Calls.{Polled}
use onlyio.Calls.Accept.{
  AcceptFuture, AcceptStream, AcceptStreamState, poll_accept, poll_next_accept,
}
use onlyio.Calls.Read.{ReadFuture, ReadStream, ReadStreamState, poll_read, poll_next_read}
use onlyio.Calls.Socket.{SocketFuture, poll_socket}
use onlyio.Calls.Commit.{CommitFuture, poll_commit}
use onlyio.Calls.Write.{WriteFuture, WriteMultipleFuture, poll_write, poll_write_multiple}
use onlyio.Calls.Acting.{
  release_read_buf-Acts, send-Acts, send_multishot-Acts, send_commit_write-Acts,
  advance_syscall_nb-Acts, send_multiple_write-Defined,
}

-- A poll does to the runtime only what `Acts` has, and is not undefined.
abbrev pub Does : {F S A : Type 0} → Runtime F → Polled F S A → Type 0
Does rt m = Ensures (λ r. Acts rt r.2) m

-- The state is not the one that is left while a poll moves it, and the descriptors can be counted.
abbrev pub Fits : WriteMultipleFuture → Type 0
Fits (WriteMultipleFuture.init fds buffer len) = length fds < 2 ^ 16
Fits (WriteMultipleFuture.pending in_fligth_count fds faileds len buffer) = Unit {0}
Fits WriteMultipleFuture.poisoned = ⊥

-- The write names a write slot by its position among them.
abbrev pub Within : WriteFuture → BufPool.BufPool → Type 0
Within (WriteFuture.init fd buf_id len) p = buf_id < length p.write_rc
Within WriteFuture.pending p = Unit {0}

pub checkout_read-Defined :
    (p : BufPool.BufPool) (buf_idx fd bytes : ℕ) → Defined (checkout_read pages p buf_idx fd bytes)
unfolding checkout_read
checkout_read-Defined p buf_idx fd bytes =
    Ensures-assert (ltb buf_idx p.read_count) assert_failed Defined-ok

pub given_back :
    {F : Type 0} (rt : Runtime F) (o : Option ℕ)
    → Ensures (Acts rt) (elim o [ none ↦ ok rt | some buf_id ↦ release_read_buf buf_id rt ])
given_back rt none = returns done
given_back rt (some buf_id) = release_read_buf-Acts buf_id rt

module _ {F : Type 0} (rt : Runtime F) (p : ℕ) (t : RawTask F)
    (indexed : Slab.index rt.tasks rt.current.tag.task_idx ≡ ok p)
    (cell : rt.store.cells p ≡ some t) where
  pub poll_accept-Acts : (f : AcceptFuture) → Does rt (poll_accept f rt)
  unfolding poll_accept send_accept
  poll_accept-Acts (AcceptFuture.pending fd) =
      Ensures-bind (send-Acts rt p t indexed cell (accept fd)) λ v a. returns a
  poll_accept-Acts AcceptFuture.submited =
      Ensures-if (is_negative rt.current.result) (returns done) (returns done)

  accept_at :
      (more : ℕ → Bool) (fd : ℕ) (state : AcceptStreamState)
      → Does rt (poll_next_accept more (record { listen_fd = fd; state = state }) rt)
  unfolding poll_next_accept send_accept_multishot
  accept_at more fd AcceptStreamState.init =
      Ensures-bind (send_multishot-Acts rt p t indexed cell (accept_multi fd)) λ v a. returns a
  accept_at more fd AcceptStreamState.running =
      Ensures-if (is_negative rt.current.result) (returns done) (returns done)
  accept_at more fd AcceptStreamState.done = returns done

  pub poll_next_accept-Acts :
      (more : ℕ → Bool) (s : AcceptStream) → Does rt (poll_next_accept more s rt)
  poll_next_accept-Acts more s = accept_at more s.listen_fd s.state

  pub poll_read-Acts :
      (buffer_select : ℕ → Option ℕ) (f : ReadFuture) → Does rt (poll_read buffer_select f rt)
  unfolding poll_read send_read
  poll_read-Acts buffer_select (ReadFuture.init fd) =
      Ensures-bind (send-Acts rt p t indexed cell (read fd (buf_size pages % 2 ^ 32) 0))
        λ v a. returns a
  poll_read-Acts buffer_select (ReadFuture.pending fd) =
      Ensures-if (is_not_positive rt.current.result)
        (Ensures-bind {P = Acts rt} (given_back rt (buffer_select rt.current.flags))
          λ v a. returns a)
        (Ensures-bind (Defined-expect (buffer_select rt.current.flags) expect_none) λ buf_id d.
          Ensures-bind (checkout_read-Defined rt.buffer buf_id fd (as_u32 rt.current.result))
            λ b d'. returns done)

  read_at :
      (buffer_select : ℕ → Option ℕ) (more : ℕ → Bool) (fd : ℕ) (state : ReadStreamState)
      → Does rt (poll_next_read buffer_select more (record { fd = fd; state = state }) rt)
  unfolding poll_next_read send_recv_multishot
  read_at buffer_select more fd ReadStreamState.init =
      Ensures-bind (send_multishot-Acts rt p t indexed cell (recv_multi fd 0)) λ v a. returns a
  read_at buffer_select more fd ReadStreamState.running =
      Ensures-if (is_negative rt.current.result) (returns done) (
        Ensures-bind (Defined-expect (buffer_select rt.current.flags) expect_none) λ buf_id d.
          Ensures-bind (checkout_read-Defined rt.buffer buf_id fd (as_u32 rt.current.result))
            λ b d'. returns done)
  read_at buffer_select more fd ReadStreamState.done = returns done

  pub poll_next_read-Acts :
      (buffer_select : ℕ → Option ℕ) (more : ℕ → Bool) (s : ReadStream)
      → Does rt (poll_next_read buffer_select more s rt)
  poll_next_read-Acts buffer_select more s = read_at buffer_select more s.fd s.state

  pub poll_commit-Acts : (f : CommitFuture) → Does rt (poll_commit f rt)
  unfolding poll_commit
  poll_commit-Acts (CommitFuture.init ptr buf_idx fd_idx len) =
      Ensures-bind (send_commit_write-Acts rt p t indexed cell ptr fd_idx len (buf_idx % 2 ^ 16))
        λ v a. returns a
  poll_commit-Acts (CommitFuture.pending buf_idx) =
      Ensures-bind (release_read_buf-Acts buf_idx rt) λ v a. returns a

  pub poll_socket-Acts :
      (addrlen frame : ℕ) (f : SocketFuture) → Does rt (poll_socket addrlen frame f rt)
  unfolding poll_socket send_socket send_connect
  poll_socket-Acts addrlen frame (SocketFuture.create_socket addr) =
      Ensures-bind (send-Acts rt p t indexed cell socket) λ v a. returns a
  poll_socket-Acts addrlen frame (SocketFuture.connecting fd addr) =
      Ensures-if (fd == 0)
        (Ensures-bind
          (send-Acts rt p t indexed cell (connect (as_u32 rt.current.result) frame addrlen))
          λ v a. returns a)
        (returns done)
  poll_socket-Acts addrlen frame SocketFuture.pending = stops

  pub poll_write-Acts : (f : WriteFuture) → Within f rt.buffer → Does rt (poll_write f rt)
  unfolding poll_write send_write send write_buf_ptr
  poll_write-Acts (WriteFuture.init fd buf_id len) l = rw (lt→ltb _ _ l) (
      Ensures-bind
        (send-Acts rt p t indexed cell (
          write_fixed fd (rt.buffer.base + (rt.buffer.read_count + buf_id) * buf_size pages) len
            buf_id))
        λ v a. returns a)
  poll_write-Acts WriteFuture.pending l = returns done

  -- When the task of CURRENT_TASK is live, the poll of a write to several descriptors, at most 65535 of
  -- them and not in the state of a moved-out future, is not undefined; and what it does to the runtime
  -- is a sequence of the runtime's calls that `Acts` has.
  pub poll_write_multiple-Acts :
      (f : WriteMultipleFuture) → Fits f → Does rt (poll_write_multiple f rt)
  unfolding poll_write_multiple
  poll_write_multiple-Acts (WriteMultipleFuture.init fds buffer len) few =
      Ensures-bind (clone-same rt.buffer buffer) λ c same.
        Ensures-bind
          (Ensures-self
            (send_multiple_write-Defined (record rt { buffer = c.1 }) p t indexed cell fds c.0 len))
          λ v e. returns (fans_out (uses_buffers done c.1 rt.buf_ring) fds c.0 len few e)
  poll_write_multiple-Acts (WriteMultipleFuture.pending in_fligth_count fds faileds len buffer) u =
      Ensures-bind (Defined-expect (pred? in_fligth_count) sub_overflow) λ left d.
        Ensures-bind (Defined-expect (get_elem? fds rt.current.response_gen) assert_failed) λ fd d'.
          Ensures-assert (not (fd == u32_max)) assert_failed (
            Ensures-if (left == 0)
              (Ensures-bind (advance_syscall_nb-Acts rt p t indexed cell)
                λ v a. returns (goes_on a))
              (returns done))
  poll_write_multiple-Acts WriteMultipleFuture.poisoned u = absurd u

  -- When the task of CURRENT_TASK is live, no poll of an accept, a read, a commit or a connect, of an
  -- accept or read stream, in any state, and of a write, whose index before the first poll is
  -- below the number of the write slots, is undefined; and what it does to the runtime is a
  -- sequence of the runtime's calls that `Acts` has.
  pub futures-Acts :
      (buffer_select : ℕ → Option ℕ) (more : ℕ → Bool) (addrlen frame : ℕ) (w : WriteFuture)
      → Within w rt.buffer
      → ((f : AcceptFuture) → Does rt (poll_accept f rt))
        × ((s : AcceptStream) → Does rt (poll_next_accept more s rt))
        × ((f : ReadFuture) → Does rt (poll_read buffer_select f rt))
        × ((s : ReadStream) → Does rt (poll_next_read buffer_select more s rt))
        × ((f : CommitFuture) → Does rt (poll_commit f rt))
        × ((f : SocketFuture) → Does rt (poll_socket addrlen frame f rt))
        × Does rt (poll_write w rt)
  futures-Acts buffer_select more addrlen frame w within = (
    poll_accept-Acts,
    poll_next_accept-Acts more,
    poll_read-Acts buffer_select,
    poll_next_read-Acts buffer_select more,
    poll_commit-Acts,
    poll_socket-Acts addrlen frame,
    poll_write-Acts w within,
  )
