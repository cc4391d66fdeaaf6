-- ===== src/Echo/Acting.antt =====
-- What the servers over streams do to the runtime.
use onlyio.Base.{
  ℕ, ◌*◌, ◌%◌, ◌^◌, Option, none, some, Bool, ok, panics, assert, expect_none, explicit, ◌>>=◌,
  ◌>>◌, leb, Ensures, Ensures.returns, Ensures.stops, Ensures-bind, Ensures-map, Ensures-assert,
  Ensures-if,
}
use onlyio.Base.Int.{ℤ}
use onlyio.BufPool.{RwBuffer, buf_size}
use onlyio.Slab.{Slab}
use onlyio.Runtime.{Runtime, pages}
use onlyio.Runtime.Acts.{Acts, Acts.done}
use onlyio.Runtime.Acts.Balance.{Polling, Polling-index}
use onlyio.Runtime.Acts.Keep.{Acts-Polling}
use onlyio.Runtime.Acts.Sequence.{Acts-Acts}
use onlyio.Runtime.Polls.{cell_of}
use onlyio.Calls.{Poll, Polled}
use onlyio.Calls.Accept.{AcceptStream, poll_next_accept}
use onlyio.Calls.Read.{ReadStream, poll_next_read, drop_rw_buffer}
use onlyio.Calls.Entry.{new_reads}
use onlyio.Calls.Commit.{CommitFuture, commit, poll_commit}
use onlyio.Calls.Acting.{release_read_buf-Acts}
use onlyio.Calls.Acting.Futures.{Does, poll_next_accept-Acts, poll_next_read-Acts, poll_commit-Acts}
use onlyio.Echo.{Echo, echo_commit, echo_read, poll_echo}

module _ {F : Type 0} where
  pub drop_rw_buffer-Acts :
      (b : RwBuffer) (rt : Runtime F) → Ensures (Acts rt) (drop_rw_buffer b rt)
  unfolding drop_rw_buffer
  drop_rw_buffer-Acts b rt =
      Ensures-if b.committed (returns done) (release_read_buf-Acts b.buf_idx rt)

  -- What follows goes on after `a`.
  pub then_Acts :
      {S A : Type 0} {rt u : Runtime F} {m : Polled F S A} → Acts rt u → Does u m → Does rt m
  then_Acts a h = Ensures-map h λ r b. Acts-Acts a b

module _ {F : Type 0} (buffer_select : ℕ → Option ℕ) (more : ℕ → Bool) (extra : ℕ → ℕ) (i p : ℕ)
    (s : Slab) where
  pub commit-Does :
      (f : CommitFuture) (rt : Runtime F) → Polling extra i p s rt → Does rt (poll_commit f rt)
  commit-Does f rt v =
      let (t, cell) = cell_of extra i p rt v.balanced v.held v.found in
      poll_commit-Acts rt p t (Polling-index extra i p s rt v) cell f

  pub accept-Does :
      (conns : AcceptStream) (rt : Runtime F)
      → Polling extra i p s rt
      → Does rt (poll_next_accept more conns rt)
  accept-Does conns rt v =
      let (t, cell) = cell_of extra i p rt v.balanced v.held v.found in
      poll_next_accept-Acts rt p t (Polling-index extra i p s rt v) cell more conns

  pub read-Does :
      (reads : ReadStream) (rt : Runtime F)
      → Polling extra i p s rt
      → Does rt (poll_next_read buffer_select more reads rt)
  read-Does reads rt v =
      let (t, cell) = cell_of extra i p rt v.balanced v.held v.found in
      poll_next_read-Acts rt p t (Polling-index extra i p s rt v) cell buffer_select more reads

  echo_commit-Acts :
      (conns : AcceptStream) (reads : ReadStream) (b : RwBuffer) (f : CommitFuture) (rt : Runtime F)
      → Polling extra i p s rt
      → Does rt (echo_commit buffer_select more conns reads b f rt)
  unfolding echo_commit
  echo_commit-Acts conns reads b f rt v = Ensures-bind (commit-Does f rt v) λ r a. ended r a
    where
      ended :
          (r : Poll ℤ × CommitFuture × Runtime F)
          → Acts rt r.2
          → Does rt (elim (r.0) [
            | Poll.pending ↦ ok (Poll.pending, Echo.committing conns reads b r.1, r.2)
            | Poll.ready n ↦ drop_rw_buffer b r.2 >>= λ rt'. ok (Poll.ready tt, Echo.done, rt')
          ])
      ended (Poll.pending, f', u) a = returns a
      ended (Poll.ready n, f', u) a =
          Ensures-bind (drop_rw_buffer-Acts b u) λ w c. returns (Acts-Acts a c)

  echo_read-Acts :
      (conns : AcceptStream) (reads : ReadStream) (rt : Runtime F)
      → Polling extra i p s rt
      → Does rt (echo_read buffer_select more conns reads rt)
  unfolding echo_read
  echo_read-Acts conns reads rt v = Ensures-bind (read-Does reads rt v) λ r a. next r a
    where
      next :
          (r : Poll (Option RwBuffer) × ReadStream × Runtime F)
          → Acts rt r.2
          → Does rt (elim (r.0) [
            | Poll.pending ↦ ok (Poll.pending, Echo.reading conns r.1, r.2)
            | Poll.ready item ↦ elim item [
              | none ↦ panics expect_none
              | some buffer ↦
                  assert (leb (2 * buffer.bytes) (buf_size pages)) explicit
                  >> echo_commit buffer_select more conns r.1
                      (commit buffer (2 * buffer.bytes % 2 ^ 32)).0
                      (commit buffer (2 * buffer.bytes % 2 ^ 32)).1
                      r.2
            ]
          ])
      next (Poll.pending, reads', u) a = returns a
      next (Poll.ready none, reads', u) a = stops
      next (Poll.ready (some b), reads', u) a =
          Ensures-assert (leb (2 * b.bytes) (buf_size pages)) explicit (
            then_Acts a (
              echo_commit-Acts conns reads' (commit b (2 * b.bytes % 2 ^ 32)).0
                (commit b (2 * b.bytes % 2 ^ 32)).1 u (Acts-Polling extra i p s a v)))

  pub poll_echo-Acts :
      (e : Echo) (rt : Runtime F)
      → Polling extra i p s rt
      → Does rt (poll_echo buffer_select more e rt)
  unfolding poll_echo
  poll_echo-Acts (Echo.accepting conns) rt v = Ensures-bind (accept-Does conns rt v) λ r a. next r a
    where
      next :
          (r : Poll (Option ℕ) × AcceptStream × Runtime F)
          → Acts rt r.2
          → Does rt (elim (r.0) [
            | Poll.pending ↦ ok (Poll.pending, Echo.accepting r.1, r.2)
            | Poll.ready item ↦ elim item [
              | none ↦ panics expect_none
              | some conn_fd ↦ echo_read buffer_select more r.1 (new_reads conn_fd) r.2
            ]
          ])
      next (Poll.pending, conns', u) a = returns a
      next (Poll.ready none, conns', u) a = stops
      next (Poll.ready (some fd), conns', u) a =
          then_Acts a (echo_read-Acts conns' (new_reads fd) u (Acts-Polling extra i p s a v))
  poll_echo-Acts (Echo.reading conns reads) rt v = echo_read-Acts conns reads rt v
  poll_echo-Acts (Echo.committing conns reads b f) rt v = echo_commit-Acts conns reads b f rt v
  poll_echo-Acts Echo.done rt v = stops
