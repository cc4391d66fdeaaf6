-- ===== src/Echo/Messages.antt =====
-- What `stream_test` does to the runtime, and how far it comes.
use onlyio.Base.{
  ◌≤◌, undefined, arith, ℕ, ◌+◌, ◌%◌, ◌^◌, ◌∙◌, ◌<◌, ◌≡◌, refl, true, Option, none, some, Bool,
  Bool-cases, inl, inr, ok, panics, assert, expect_none, add_overflow, ◌>>=◌, ◌>>◌, leb, ltb,
  lt→ltb, if◌then◌else◌, Ensures.returns, Ensures.stops, Ensures-bind, Ensures-assert,
}
use onlyio.Base.Int.{ℤ, is_negative}
use onlyio.BufPool.{RwBuffer, buf_size, read_buf_addr}
use onlyio.BufRing.{release_buf_to_ring}
use onlyio.Slab.{Slab}
use onlyio.Runtime.{Runtime, pages, release_read_buf}
use onlyio.Runtime.Acts.{Acts}
use onlyio.Runtime.Acts.Balance.{Polling, Polling-index}
use onlyio.Runtime.Acts.Keep.{Acts-Polling}
use onlyio.Runtime.Acts.Sequence.{Acts-Acts}
use onlyio.Calls.{Poll}
use onlyio.Calls.Accept.{AcceptStream}
use onlyio.Calls.Read.{ReadStream, ReadStreamState, poll_next_read, drop_rw_buffer}
use onlyio.Calls.Entry.{new_reads}
use onlyio.Calls.Commit.{CommitFuture, commit, poll_commit}
use onlyio.Calls.Acting.Futures.{Does}
use onlyio.Echo.{Echo, poll_echo, Totals, begin_commit, next_message, poll_totals, message}
use onlyio.BufPool.Bytes.{read_slice}
use onlyio.Runtime.Polls.{cell_of}
use onlyio.Echo.Slices.{
  Sized, Sized-kept, Sound, Reads, Commits, poll_next_read-Reads, poll_commit-Commits,
  drop_rw_buffer-current,
}
use onlyio.Echo.Acting.{poll_echo-Acts, then_Acts, commit-Does, accept-Does}

within : (a b : ℕ) → a ≤ b → leb a b ≡ true
within a b l = ground arith

module _ {F : Type 0} (buffer_select : ℕ → Option ℕ) (more : ℕ → Bool) (shown : ℕ → ℕ)
    (extra : ℕ → ℕ) (i p : ℕ) (s : Slab) where
  begin_commit-Acts :
      (conns : AcceptStream) (reads : ReadStream) (counter : ℕ) (b : RwBuffer) (rt : Runtime F)
      → Polling extra i p s rt
      → Does rt (begin_commit buffer_select more shown conns reads counter b rt)
  unfolding begin_commit
  begin_commit-Acts conns reads counter b rt v =
      Ensures-assert (leb (shown counter) (buf_size pages)) expect_none (
        Ensures-bind
          (commit-Does buffer_select more extra i p s (commit b (shown counter % 2 ^ 32)).1 rt v)
          λ r a. returns a)

  next_message-Acts :
      (conns : AcceptStream) (reads : ReadStream) (counter : ℕ) (rt : Runtime F)
      → Polling extra i p s rt
      → Sized reads.state rt
      → Does rt (next_message buffer_select more shown conns reads counter rt)
  unfolding next_message message
  next_message-Acts conns reads counter rt v short =
      let (t, cell) = cell_of extra i p rt v.balanced v.held v.found in
      Ensures-bind
        (poll_next_read-Reads rt p t (Polling-index extra i p s rt v) cell buffer_select more reads
          short)
        λ r a. next r a
    where
      next :
          (r : Poll (Option RwBuffer) × ReadStream × Runtime F)
          → Reads rt r
          → Does rt (elim (r.0) [
            | Poll.pending ↦ ok (Poll.pending, Totals.reading conns r.1 counter, r.2)
            | Poll.ready item ↦ elim item [
              | none ↦ ok (Poll.ready tt, Totals.done, r.2)
              | some buffer ↦
                  (if leb buffer.bytes (buf_size pages) then ok (read_slice buffer) else undefined)
                  >>= λ slice.
                      assert (ltb (counter + buffer.bytes) (2 ^ 32)) add_overflow
                      >> begin_commit buffer_select more shown conns r.1
                          (counter + buffer.bytes)
                          buffer
                          r.2
            ]
          ])
      next (Poll.pending, reads', u) (a, tt) = returns a
      next (Poll.ready none, reads', u) (a, tt) = returns a
      next (Poll.ready (some b), reads', u) (a, fits) = rw (within b.bytes (buf_size pages) fits) (
          Ensures-assert (ltb (counter + b.bytes) (2 ^ 32)) add_overflow (
            then_Acts a (
              begin_commit-Acts conns reads' (counter + b.bytes) b u
                (Acts-Polling extra i p s a v))))

  poll_totals-Acts :
      (m : Totals) (rt : Runtime F)
      → Polling extra i p s rt
      → Sound m rt
      → Does rt (poll_totals buffer_select more shown m rt)
  unfolding poll_totals
  poll_totals-Acts (Totals.accepting conns) rt v short =
      Ensures-bind (accept-Does buffer_select more extra i p s conns rt v) λ r a. next r a
    where
      next :
          (r : Poll (Option ℕ) × AcceptStream × Runtime F)
          → Acts rt r.2
          → Does rt (elim (r.0) [
            | Poll.pending ↦ ok (Poll.pending, Totals.accepting r.1, r.2)
            | Poll.ready item ↦ elim item [
              | none ↦ panics expect_none
              | some conn_fd ↦ next_message buffer_select more shown r.1 (new_reads conn_fd) 0 r.2
            ]
          ])
      next (Poll.pending, conns', u) a = returns a
      next (Poll.ready none, conns', u) a = stops
      next (Poll.ready (some fd), conns', u) a =
          then_Acts a
            (next_message-Acts conns' (new_reads fd) 0 u (Acts-Polling extra i p s a v) tt)
  poll_totals-Acts (Totals.reading conns reads counter) rt v short =
      next_message-Acts conns reads counter rt v short
  poll_totals-Acts (Totals.committing conns reads counter b f) rt v short =
      let (t, cell) = cell_of extra i p rt v.balanced v.held v.found in
      Ensures-bind (poll_commit-Commits rt p t (Polling-index extra i p s rt v) cell f)
        λ r a. next r a
    where
      next :
          (r : Poll ℤ × CommitFuture × Runtime F)
          → Commits rt r
          → Does rt (elim (r.0) [
            | Poll.pending ↦ ok (Poll.pending, Totals.committing conns reads counter b r.1, r.2)
            | Poll.ready n ↦ drop_rw_buffer b r.2 >>= λ rt'.
                next_message buffer_select more shown conns reads counter rt'
          ])
      next (Poll.pending, f', u) a = returns a
      next (Poll.ready n, f', u) (a, kept) =
          Ensures-bind (drop_rw_buffer-current u b) λ w (c, kept'). then_Acts (Acts-Acts a c) (
            next_message-Acts conns reads counter w (Acts-Polling extra i p s (Acts-Acts a c) v)
              (Sized-kept reads.state rt w (kept' ∙ kept) short))
  poll_totals-Acts Totals.done rt v short = stops

  -- A live task that runs one of the two servers over streams is polled without undefined behaviour when
  -- the counts of the tasks are in order and no waker waits: `test_echo_double_6379` in any state `e`, and `stream_test` in any
  -- state `m`, if, where its read stream runs, the result that it is polled for is negative or no
  -- more than the bytes of a slot, so that the slice of the message lies in its slot. What the poll
  -- does to the runtime is a sequence of the runtime's calls that `Acts` has.
  pub servers-Acts :
      (e : Echo) (m : Totals) (rt : Runtime F)
      → Polling extra i p s rt
      → Sound m rt
      → Does rt (poll_echo buffer_select more e rt)
        × Does rt (poll_totals buffer_select more shown m rt)
  servers-Acts e m rt v short =
      (poll_echo-Acts buffer_select more extra i p s e rt v, poll_totals-Acts m rt v short)

module _ {F : Type 0} (buffer_select : ℕ → Option ℕ) (more : ℕ → Bool) (shown : ℕ → ℕ) where
  -- The server of `stream_test` waits for the write of an answer from a read slot, and its stream runs:
  -- when it is polled for a completion that names no slot, as that of the write, it gives the slot of
  -- the answer back to the ring, and the next round of its loop takes the same completion for an item
  -- of the stream: the server panics, or ends if the result is negative.
  pub poll_totals-mistakes :
      (conns : AcceptStream) (fd counter : ℕ) (b : RwBuffer) (rt : Runtime F)
      → b.committed ≡ true
      → b.buf_idx < rt.buffer.read_count
      → buffer_select rt.current.flags ≡ none
      → poll_totals buffer_select more shown
          (Totals.committing conns
            (record { fd = fd; state = ReadStreamState.running })
            counter
            b
            (CommitFuture.pending b.buf_idx))
          rt
        ≡ (release_read_buf b.buf_idx rt >>= λ rt'.
            if is_negative rt.current.result
            then ok (Poll.ready tt, Totals.done, rt')
            else panics expect_none)
  unfolding poll_totals next_message poll_commit drop_rw_buffer poll_next_read release_read_buf
      release_buf_to_ring read_buf_addr
  poll_totals-mistakes conns fd counter b rt committed l unnamed =
      elim (Bool-cases (is_negative rt.current.result)) [
        | inl e ↦ rw (lt→ltb b.buf_idx rt.buffer.read_count l, committed, e) refl
        | inr e ↦ rw (lt→ltb b.buf_idx rt.buffer.read_count l, committed, e, unnamed) refl
      ]
