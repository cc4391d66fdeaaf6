-- ===== src/Echo/Slices.antt =====
-- What the kernel's answers have to be for `stream_test` to read its messages.
use onlyio.Base.{
  ◌⊎◌, true, subst, sym, ℕ, ◌≤◌, ◌≡◌, refl, Option, none, some, Bool, inl, inr, ok, expect_none,
  ltb, arith, assert_failed, Ensures, Ensures.returns, Ensures-bind, Ensures-assert, Ensures-if,
  Defined-expect, Defined-ok, Defined-bind, ◌%◌, ◌^◌,
}
use onlyio.Base.Int.{ℤ, is_negative, as_u32}
use onlyio.BufPool
use onlyio.BufPool.{RwBuffer, buf_size, checkout_read}
use onlyio.BufRing.{release_buf_to_ring}
use onlyio.Slab
use onlyio.Sqe.{recv_multi}
use onlyio.Task.{RawTask}
use onlyio.UserData.{TaskInfo}
use onlyio.Runtime.{Runtime, pages, send_recv_multishot, release_read_buf}
use onlyio.Runtime.Acts.{Acts, Acts.done, Acts.uses_buffers}
use onlyio.Calls.{Poll}
use onlyio.Calls.Read.{ReadStream, ReadStreamState, poll_next_read, drop_rw_buffer}
use onlyio.Calls.Commit.{CommitFuture, poll_commit}
use onlyio.Calls.Acting.{send_multishot-Acts, send_commit_write-Acts}
use onlyio.Echo.{Totals}

module _ {F : Type 0} where
  -- The result is an error, or counts at most the bytes of a slot.
  abbrev Short : Runtime F → Type 0
  Short rt = (is_negative rt.current.result ≡ true) ⊎ (as_u32 rt.current.result ≤ buf_size pages)

  -- The answer that a running read stream is polled for is such a result.
  abbrev pub Sized : ReadStreamState → Runtime F → Type 0
  Sized ReadStreamState.init rt = Unit {0}
  Sized ReadStreamState.running rt = Short rt
  Sized ReadStreamState.done rt = Unit {0}

  -- The server takes the answer for an item of its read stream only where it is one, or where a
  -- write has been answered that the stream mistakes for one.
  abbrev pub Sound : Totals → Runtime F → Type 0
  Sound (Totals.accepting conns) rt = Unit {0}
  Sound (Totals.reading conns reads counter) rt = Sized reads.state rt
  Sound (Totals.committing conns reads counter b f) rt = Sized reads.state rt
  Sound Totals.done rt = Unit {0}

module _ {F : Type 0} where
  pub Sized-kept :
      (state : ReadStreamState) (rt v : Runtime F)
      → v.current ≡ rt.current
      → Sized state rt
      → Sized state v
  Sized-kept ReadStreamState.init rt v e short = tt
  Sized-kept ReadStreamState.running rt v e short =
      subst (λ (c : TaskInfo). (is_negative c.result ≡ true) ⊎ (as_u32 c.result ≤ buf_size pages))
        (sym e) short
  Sized-kept ReadStreamState.done rt v e short = tt

-- A message that is yielded fits its slot.
abbrev pub Fitting : Poll (Option RwBuffer) → Type 0
Fitting Poll.pending = Unit {0}
Fitting (Poll.ready none) = Unit {0}
Fitting (Poll.ready (some b)) = b.bytes ≤ buf_size pages

module _ {F : Type 0} (rt : Runtime F) where
  -- The poll gives no message longer than its slot.
  abbrev pub Reads : Poll (Option RwBuffer) × ReadStream × Runtime F → Type 0
  Reads r = Acts rt r.2 × Fitting r.0

  -- The poll of a commit that ends leaves CURRENT_TASK alone.
  abbrev pub Commits : Poll ℤ × CommitFuture × Runtime F → Type 0
  Commits (Poll.pending, f, v) = Acts rt v
  Commits (Poll.ready n, f, v) = Acts rt v × (v.current ≡ rt.current)

  checkout_read-bytes :
      (p : BufPool.BufPool) (buf_idx fd bytes : ℕ)
      → Ensures (λ b. b.bytes ≡ bytes) (checkout_read pages p buf_idx fd bytes)
  unfolding checkout_read
  checkout_read-bytes p buf_idx fd bytes =
      Ensures-assert (ltb buf_idx p.read_count) assert_failed (returns refl)

  pub release_read_buf-current :
      (buf_idx : ℕ)
      → Ensures (λ v. Acts rt v × (v.current ≡ rt.current)) (release_read_buf buf_idx rt)
  unfolding release_read_buf release_buf_to_ring BufPool.read_buf_addr
  release_read_buf-current buf_idx =
      Ensures-bind
        (Defined-bind (Ensures-assert (ltb buf_idx rt.buffer.read_count) assert_failed Defined-ok)
          λ addr. Defined-ok)
        λ ring d. returns (uses_buffers done rt.buffer ring, refl)

  pub drop_rw_buffer-current :
      (b : RwBuffer) → Ensures (λ v. Acts rt v × (v.current ≡ rt.current)) (drop_rw_buffer b rt)
  unfolding drop_rw_buffer
  drop_rw_buffer-current b =
      Ensures-if b.committed (returns (done, refl)) (release_read_buf-current b.buf_idx)

  module _ (p : ℕ) (t : RawTask F) (indexed : Slab.index rt.tasks rt.current.tag.task_idx ≡ ok p)
      (cell : rt.store.cells p ≡ some t) where
    Reads-at :
        (buffer_select : ℕ → Option ℕ) (more : ℕ → Bool) (fd : ℕ) (state : ReadStreamState)
        → Sized state rt
        → Ensures Reads (poll_next_read buffer_select more (record { fd = fd; state = state }) rt)
    unfolding poll_next_read send_recv_multishot
    Reads-at buffer_select more fd ReadStreamState.init short =
        Ensures-bind (send_multishot-Acts rt p t indexed cell (recv_multi fd 0))
          λ v a. returns (a, tt)
    Reads-at buffer_select more fd ReadStreamState.running (inl negative) =
        rw negative (returns (done, tt))
    Reads-at buffer_select more fd ReadStreamState.running (inr fits) =
        Ensures-if (is_negative rt.current.result) (returns (done, tt)) (
          Ensures-bind (Defined-expect (buffer_select rt.current.flags) expect_none) λ buf_id d.
            Ensures-bind (checkout_read-bytes rt.buffer buf_id fd (as_u32 rt.current.result))
              λ b e. returns (done, omega (arith, e, fits)))
    Reads-at buffer_select more fd ReadStreamState.done short = returns (done, tt)

    pub poll_next_read-Reads :
        (buffer_select : ℕ → Option ℕ) (more : ℕ → Bool) (reads : ReadStream)
        → Sized reads.state rt
        → Ensures Reads (poll_next_read buffer_select more reads rt)
    poll_next_read-Reads buffer_select more reads short =
        Reads-at buffer_select more reads.fd reads.state short

    pub poll_commit-Commits : (f : CommitFuture) → Ensures Commits (poll_commit f rt)
    unfolding poll_commit
    poll_commit-Commits (CommitFuture.init ptr buf_idx fd_idx len) =
        Ensures-bind (send_commit_write-Acts rt p t indexed cell ptr fd_idx len (buf_idx % 2 ^ 16))
          λ v a. returns a
    poll_commit-Commits (CommitFuture.pending buf_idx) =
        Ensures-bind (release_read_buf-current buf_idx) λ v a. returns a
