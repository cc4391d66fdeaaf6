-- ===== src/Calls/Acting/Costs.antt =====
-- What the futures of src/calls and `handle_connexion` can still queue.
use onlyio.Base.{
  Yields-map, ◌*◌, ltb, ℕ, ◌+◌, ◌%◌, ◌^◌, ◌≤◌, ◌≡◌, refl, not, Bool, inl, inr, Option, some, none,
  ok, arith, expect_none, assert_failed, Yields, Yields.gives, Yields-bind, Yields-self,
  Yields-assert, Yields-expect, Yields-if, length, get_elem?, ◌==◌, sub_overflow, Bool-cases,
}
use onlyio.Base.Int.{is_negative, is_not_positive, as_u32}
use onlyio.Sqe.{read, accept, write_fixed, recv_multi, accept_multi}
use onlyio.BufPool
use onlyio.BufPool.{buf_size, write_buf_ptr, checkout_read, RwBuffer}
use onlyio.Task.{inc_rc}
use onlyio.Runtime.{
  on_task, Runtime, pages, send, send_multishot, send_recv_multishot, send_accept_multishot,
  send_multiple_write, advance_syscall_nb, send_read, send_accept, send_write, send_commit_write,
  release_read_buf,
}
use onlyio.BufRing.{release_buf_to_ring}
use onlyio.Runtime.Acts.{
  Acts, Acts.done, Acts.sends, Acts.commits, Acts.uses_buffers, Acts.sends_multishot, Acts.fans_out,
  Acts.goes_on, Acts.advances,
}
use onlyio.Task.Store.{pred?}
use onlyio.Slab.{u32_max}
use onlyio.Runtime.Cost.{cost}
use onlyio.Calls.{Poll, Polled}
use onlyio.Calls.Accept.{
  AcceptFuture, AcceptStream, AcceptStreamState, poll_accept, poll_next_accept,
}
use onlyio.Calls.Acting.Futures.{Fits}
use onlyio.Calls.Read.{ReadFuture, ReadStream, ReadStreamState, poll_read, poll_next_read}
use onlyio.Calls.Commit.{CommitFuture, poll_commit}
use onlyio.Calls.Write.{WriteFuture, WriteMultipleFuture, poll_write, poll_write_multiple}

-- The entries that a future still queues
abbrev pub accept_left : AcceptFuture → ℕ
accept_left (AcceptFuture.pending fd) = 1
accept_left AcceptFuture.submited = 0

abbrev pub read_left : ReadFuture → ℕ
read_left (ReadFuture.init fd) = 1
read_left (ReadFuture.pending fd) = 0

abbrev pub commit_left : CommitFuture → ℕ
commit_left (CommitFuture.init ptr buf_idx fd_idx len) = 1
commit_left (CommitFuture.pending buf_idx) = 0

abbrev pub write_left : WriteFuture → ℕ
write_left (WriteFuture.init fd buf_id len) = 1
write_left WriteFuture.pending = 0

abbrev pub accept_stream_left : AcceptStreamState → ℕ
accept_stream_left AcceptStreamState.init = 1
accept_stream_left AcceptStreamState.running = 0
accept_stream_left AcceptStreamState.done = 0

abbrev pub read_stream_left : ReadStreamState → ℕ
read_stream_left ReadStreamState.init = 1
read_stream_left ReadStreamState.running = 0
read_stream_left ReadStreamState.done = 0

abbrev pub write_multiple_left : WriteMultipleFuture → ℕ
write_multiple_left (WriteMultipleFuture.init fds buffer len) = length fds
write_multiple_left (WriteMultipleFuture.pending in_fligth_count fds faileds len buffer) = 0
write_multiple_left WriteMultipleFuture.poisoned = 0

module _ {F : Type 0} (rank : F → ℕ) (rt : Runtime F) where
  -- If the poll returns, it did only what `Acts` has, and lowered what is left by its cost.
  abbrev pub Pays : {S A : Type 0} → (S → ℕ) → S → Polled F S A → Type 0
  Pays {S} {A} left f m =
      Yields (λ (r : Poll A × S × Runtime F). (a : Acts rt r.2) × (left r.1 + cost rank a ≤ left f))
        m

  pub release_read_buf-free :
      (buf_idx : ℕ)
      → Yields (λ v. (a : Acts rt v) × (cost rank a ≡ 0)) (release_read_buf buf_idx rt)
  unfolding release_read_buf cost
  release_read_buf-free buf_idx =
      Yields-bind (Yields-self (release_buf_to_ring pages rt.buffer rt.buf_ring buf_idx))
        λ ring e. gives (uses_buffers done rt.buffer ring, refl)

  pub poll_accept-Pays : (f : AcceptFuture) → Pays accept_left f (poll_accept f rt)
  unfolding poll_accept send_accept cost
  poll_accept-Pays (AcceptFuture.pending fd) =
      Yields-bind (Yields-self (send (accept fd) rt))
        λ v e. gives (sends done (accept fd) e, omega arith)
  poll_accept-Pays AcceptFuture.submited =
      Yields-if (is_negative rt.current.result) (gives (done, omega arith))
        (gives (done, omega arith))

  -- A write that is queued is sent with the pointer that `write_buf_ptr` has computed.
  send_write-Yields :
      (fd buf_id len : ℕ)
      → Yields
          (λ v. (ptr : ℕ) × (send (write_fixed fd ptr len buf_id) rt ≡ ok v))
          (send_write fd buf_id len rt)
  unfolding send_write write_buf_ptr send
  send_write-Yields fd buf_id len = elim (Bool-cases (ltb buf_id (length rt.buffer.write_rc))) [
    | inl l ↦ rw l (
        Yields-map
          (Yields-self (
            send
              (write_fixed fd (rt.buffer.base + (rt.buffer.read_count + buf_id) * buf_size pages)
                len buf_id)
              rt))
          λ v e. (rt.buffer.base + (rt.buffer.read_count + buf_id) * buf_size pages, e))
    | inr past ↦
        rw past (
          Yields-bind (Yields-self (on_task inc_rc rt.current.tag.task_idx rt))
            λ v e. Yields.breaks)
  ]

  pub poll_write-Pays : (f : WriteFuture) → Pays write_left f (poll_write f rt)
  unfolding poll_write cost
  poll_write-Pays (WriteFuture.init fd buf_id len) =
      Yields-bind (send_write-Yields fd buf_id len)
        λ v (ptr, e). gives (sends done (write_fixed fd ptr len buf_id) e, omega arith)
  poll_write-Pays WriteFuture.pending = gives (done, omega arith)

  pub poll_commit-Pays : (f : CommitFuture) → Pays commit_left f (poll_commit f rt)
  unfolding poll_commit cost
  poll_commit-Pays (CommitFuture.init ptr buf_idx fd_idx len) =
      Yields-bind (Yields-self (send_commit_write ptr fd_idx len (buf_idx % 2 ^ 16) rt))
        λ v e. gives (commits done ptr fd_idx len (buf_idx % 2 ^ 16) e, omega arith)
  poll_commit-Pays (CommitFuture.pending buf_idx) =
      Yields-bind (release_read_buf-free buf_idx) λ v a. gives (a.0, omega (arith, a.1))

  given_back-free :
      (o : Option ℕ)
      → Yields
          (λ v. (a : Acts rt v) × (cost rank a ≡ 0))
          (elim o [ none ↦ ok rt | some buf_id ↦ release_read_buf buf_id rt ])
  unfolding cost
  given_back-free none = gives (done, refl)
  given_back-free (some buf_id) = release_read_buf-free buf_id

  pub poll_read-Pays :
      (buffer_select : ℕ → Option ℕ) (f : ReadFuture)
      → Pays read_left f (poll_read buffer_select f rt)
  unfolding poll_read send_read cost
  poll_read-Pays buffer_select (ReadFuture.init fd) =
      Yields-bind (Yields-self (send (read fd (buf_size pages % 2 ^ 32) 0) rt))
        λ v e. gives (sends done (read fd (buf_size pages % 2 ^ 32) 0) e, omega arith)
  poll_read-Pays buffer_select (ReadFuture.pending fd) =
      Yields-if (is_not_positive rt.current.result)
        (Yields-bind (given_back-free (buffer_select rt.current.flags))
          λ v a. gives (a.0, omega (arith, a.1)))
        (Yields-bind (Yields-expect (buffer_select rt.current.flags) expect_none) λ buf_id d.
          Yields-bind
            (Yields-self (checkout_read pages rt.buffer buf_id fd (as_u32 rt.current.result)))
            λ b d'. gives (done, omega arith))

  accept_stream_at :
      (more : ℕ → Bool) (fd : ℕ) (state : AcceptStreamState)
      → Pays
          (λ (s : AcceptStream). accept_stream_left s.state)
          (record { listen_fd = fd; state = state })
          (poll_next_accept more (record { listen_fd = fd; state = state }) rt)
  unfolding poll_next_accept send_accept_multishot cost
  accept_stream_at more fd AcceptStreamState.init =
      Yields-bind (Yields-self (send_multishot (accept_multi fd) rt))
        λ v e. gives (sends_multishot done (accept_multi fd) e, omega arith)
  accept_stream_at more fd AcceptStreamState.running =
      Yields-if (is_negative rt.current.result) (gives (done, omega arith)) (
        gives (
          done,
          elim (Bool-cases (more rt.current.flags)) [
            | inl m ↦ rw m (omega arith)
            | inr m ↦ rw m (omega arith)
          ],
        ))
  accept_stream_at more fd AcceptStreamState.done = gives (done, omega arith)

  read_stream_at :
      (buffer_select : ℕ → Option ℕ) (more : ℕ → Bool) (fd : ℕ) (state : ReadStreamState)
      → Pays
          (λ (s : ReadStream). read_stream_left s.state)
          (record { fd = fd; state = state })
          (poll_next_read buffer_select more (record { fd = fd; state = state }) rt)
  unfolding poll_next_read send_recv_multishot cost
  read_stream_at buffer_select more fd ReadStreamState.init =
      Yields-bind (Yields-self (send_multishot (recv_multi fd 0) rt))
        λ v e. gives (sends_multishot done (recv_multi fd 0) e, omega arith)
  read_stream_at buffer_select more fd ReadStreamState.running =
      Yields-if (is_negative rt.current.result) (gives (done, omega arith)) (
        Yields-bind (Yields-expect (buffer_select rt.current.flags) expect_none) λ buf_id d.
          Yields-bind
            (Yields-self (checkout_read pages rt.buffer buf_id fd (as_u32 rt.current.result)))
            λ b d'. gives (
              done,
              elim (Bool-cases (more rt.current.flags)) [
                | inl m ↦ rw m (omega arith)
                | inr m ↦ rw m (omega arith)
              ],
            ))
  read_stream_at buffer_select more fd ReadStreamState.done = gives (done, omega arith)

  write_multiple_at :
      (f : WriteMultipleFuture) → Fits f → Pays write_multiple_left f (poll_write_multiple f rt)
  unfolding poll_write_multiple cost
  write_multiple_at (WriteMultipleFuture.init fds buffer len) few =
      Yields-bind (Yields-self (BufPool.clone rt.buffer buffer)) λ c cloned.
        Yields-bind (Yields-self (send_multiple_write fds c.0 len (record rt { buffer = c.1 })))
          λ v e. gives (fans_out (uses_buffers done c.1 rt.buf_ring) fds c.0 len few e, omega arith)
  write_multiple_at (WriteMultipleFuture.pending in_fligth_count fds faileds len buffer) u =
      Yields-bind (Yields-expect (pred? in_fligth_count) sub_overflow) λ left d.
        Yields-bind (Yields-expect (get_elem? fds rt.current.response_gen) assert_failed) λ fd d'.
          Yields-assert (not (fd == u32_max)) assert_failed (
            Yields-if (left == 0)
              (Yields-bind (Yields-self (advance_syscall_nb rt.current.tag rt))
                λ v e. gives (goes_on (advances done e), omega arith))
              (gives (done, omega arith)))
  write_multiple_at WriteMultipleFuture.poisoned u = absurd u

  -- Whenever a poll of an accept, a read, a commit, a write, an accept or read stream, or a write to
  -- several descriptors, at most 65535 of them, returns, what it did to the runtime is a sequence of
  -- the runtime's calls that `Acts` has, and the entries that it may still queue have become fewer by
  -- those that it queued: a single call and a stream have one entry in all, a write to several
  -- descriptors one for each.
  pub futures-Pays :
      (buffer_select : ℕ → Option ℕ) (more : ℕ → Bool)
      → ((f : AcceptFuture) → Pays accept_left f (poll_accept f rt))
        × ((f : ReadFuture) → Pays read_left f (poll_read buffer_select f rt))
        × ((f : CommitFuture) → Pays commit_left f (poll_commit f rt))
        × ((f : WriteFuture) → Pays write_left f (poll_write f rt))
        × ((s : AcceptStream)
            → Pays
                (λ (x : AcceptStream). accept_stream_left x.state)
                s
                (poll_next_accept more s rt))
        × ((s : ReadStream)
            → Pays
                (λ (x : ReadStream). read_stream_left x.state)
                s
                (poll_next_read buffer_select more s rt))
        × ((f : WriteMultipleFuture)
            → Fits f
            → Pays write_multiple_left f (poll_write_multiple f rt))
  futures-Pays buffer_select more = (
    poll_accept-Pays,
    poll_read-Pays buffer_select,
    poll_commit-Pays,
    poll_write-Pays,
    λ s. accept_stream_at more s.listen_fd s.state,
    λ s. read_stream_at buffer_select more s.fd s.state,
    write_multiple_at,
  )
