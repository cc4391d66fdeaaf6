-- ===== src/Echo.antt =====
-- The two servers over streams in the tests of src/lib.rs. `test_echo_double_6379` accepts one
-- connection, reads one message and sends it back doubled; `stream_test` accepts one connection and
-- answers every message with the number of bytes so far. The states are those of the streams and of the
-- future that is awaited; the bytes of the answers are left out, and of the message `stream_test` reads
-- the slice and not its text. `shown` is the length of the text that
-- `write!` makes of a number.
pub mod Acting
pub mod Messages
pub mod Mixed
pub mod Slices
use onlyio.Base.{
  Outcome, undefined, if◌then◌else◌, ℕ, ◌+◌, ◌*◌, ◌%◌, ◌^◌, Option, none, some, Bool, ok, panics,
  assert, assert_failed, expect, expect_none, explicit, add_overflow, ◌>>=◌, ◌>>◌, leb, ltb,
}
use onlyio.BufPool.{RwBuffer, buf_size}
use onlyio.BufPool.Bytes.{Slice, read_slice}
use onlyio.Runtime.{Runtime, pages}
use onlyio.Calls.{Poll, Polled}
use onlyio.Calls.Accept.{AcceptStream, poll_next_accept}
use onlyio.Calls.Read.{ReadStream, ReadStreamState, poll_next_read, drop_rw_buffer}
use onlyio.Calls.Entry.{new_accepts, new_reads}
use onlyio.Calls.Commit.{CommitFuture, commit, poll_commit}

pub data Echo : Type 0 where
  accepting : AcceptStream → Echo
  reading : AcceptStream → ReadStream → Echo
  committing : AcceptStream → ReadStream → RwBuffer → CommitFuture → Echo
  done : Echo

-- The server before its first poll
abbrev pub new_echo : ℕ → Echo
new_echo listen_fd = Echo.accepting (new_accepts listen_fd)

module _ {F : Type 0} (buffer_select : ℕ → Option ℕ) (more : ℕ → Bool) where
  -- `rwbuf.commit((2 * len) as u32).await`: the handle is dropped when `commit` returns.
  unfoldable pub echo_commit :
      AcceptStream → ReadStream → RwBuffer → CommitFuture → Runtime F → Polled F Echo (Unit {0})
  echo_commit conns reads buffer f rt = do
    r ← poll_commit f rt
    elim (r.0) [
      | Poll.pending ↦ ok (Poll.pending, Echo.committing conns reads buffer r.1, r.2)
      | Poll.ready n ↦ (do rt' ← drop_rw_buffer buffer r.2; ok (Poll.ready tt, Echo.done, rt'))
    ]

  -- `reads.next().await.unwrap()`, and the copy of the message behind itself
  unfoldable pub echo_read : AcceptStream → ReadStream → Runtime F → Polled F Echo (Unit {0})
  unfolding echo_commit commit
  echo_read conns reads rt = do
    r ← poll_next_read buffer_select more reads rt
    elim (r.0) [
      | Poll.pending ↦ ok (Poll.pending, Echo.reading conns r.1, r.2)
      | Poll.ready item ↦ elim item [
        | none ↦ panics expect_none
        | some buffer ↦ (do
          assert (leb (2 * buffer.bytes) (buf_size pages)) explicit
          let c = commit buffer (2 * buffer.bytes % 2 ^ 32)
          echo_commit conns r.1 c.0 c.1 r.2)
      ]
    ]

  unfoldable pub poll_echo : Echo → Runtime F → Polled F Echo (Unit {0})
  unfolding echo_read echo_commit
  poll_echo (Echo.accepting conns) rt = do
    r ← poll_next_accept more conns rt
    elim (r.0) [
      | Poll.pending ↦ ok (Poll.pending, Echo.accepting r.1, r.2)
      | Poll.ready item ↦ elim item [
        | none ↦ panics expect_none
        | some conn_fd ↦ echo_read r.1 (new_reads conn_fd) r.2
      ]
    ]
  poll_echo (Echo.reading conns reads) rt = echo_read conns reads rt
  poll_echo (Echo.committing conns reads buffer f) rt = echo_commit conns reads buffer f rt
  poll_echo Echo.done rt = panics explicit

pub data Totals : Type 0 where
  accepting : AcceptStream → Totals
  reading : AcceptStream → ReadStream → (counter : ℕ) → Totals
  committing : AcceptStream → ReadStream → (counter : ℕ) → RwBuffer → CommitFuture → Totals
  done : Totals

-- `read.read_slice()`, whose bytes are then read: it takes the number of bytes that the kernel gave
-- unchecked, and a slice that is longer than the slot is undefined behaviour.
unfoldable pub message : RwBuffer → Outcome Slice
unfolding read_slice
message b = if leb b.bytes (buf_size pages) then ok (read_slice b) else undefined

-- The server before its first poll
abbrev pub new_totals : ℕ → Totals
new_totals listen_fd = Totals.accepting (new_accepts listen_fd)

module _ {F : Type 0} (buffer_select : ℕ → Option ℕ) (more : ℕ → Bool) (shown : ℕ → ℕ) where
  -- The first poll of `read.commit(len as u32).await`, which never finishes
  unfoldable pub begin_commit :
      AcceptStream → ReadStream → ℕ → RwBuffer → Runtime F → Polled F Totals (Unit {0})
  unfolding commit
  begin_commit conns reads counter buffer rt = do
    assert (leb (shown counter) (buf_size pages)) expect_none
    let c = commit buffer (shown counter % 2 ^ 32)
    r ← poll_commit c.1 rt
    ok (Poll.pending, Totals.committing conns reads counter c.0 r.1, r.2)

  -- `while let Some(mut read) = read_stream.next().await`
  unfoldable pub next_message :
      AcceptStream → ReadStream → ℕ → Runtime F → Polled F Totals (Unit {0})
  unfolding begin_commit
  next_message conns reads counter rt = do
    r ← poll_next_read buffer_select more reads rt
    elim (r.0) [
      | Poll.pending ↦ ok (Poll.pending, Totals.reading conns r.1 counter, r.2)
      | Poll.ready item ↦ elim item [
        | none ↦ ok (Poll.ready tt, Totals.done, r.2)
        | some buffer ↦ (do
          slice ← message buffer
          assert (ltb (counter + buffer.bytes) (2 ^ 32)) add_overflow
          begin_commit conns r.1 (counter + buffer.bytes) buffer r.2)
      ]
    ]

  unfoldable pub poll_totals : Totals → Runtime F → Polled F Totals (Unit {0})
  unfolding next_message
  poll_totals (Totals.accepting conns) rt = do
    r ← poll_next_accept more conns rt
    elim (r.0) [
      | Poll.pending ↦ ok (Poll.pending, Totals.accepting r.1, r.2)
      | Poll.ready item ↦ elim item [
        | none ↦ panics expect_none
        | some conn_fd ↦ next_message r.1 (new_reads conn_fd) 0 r.2
      ]
    ]
  poll_totals (Totals.reading conns reads counter) rt = next_message conns reads counter rt
  poll_totals (Totals.committing conns reads counter buffer f) rt = do
    r ← poll_commit f rt
    elim (r.0) [
      | Poll.pending ↦ ok (Poll.pending, Totals.committing conns reads counter buffer r.1, r.2)
      | Poll.ready n ↦ (do rt' ← drop_rw_buffer buffer r.2; next_message conns reads counter rt')
    ]
  poll_totals Totals.done rt = panics explicit
