-- ===== src/Connexion.antt =====
-- `handle_connexion` of src/lib.rs: a task that reads from a connection and sends the bytes back from the
-- slot in which they came. Its states are those of the two futures that it awaits.
pub mod Answers
pub mod Costs
pub mod Runs
use onlyio.Base.{
  ℕ, not, ◌⊎◌, inl, inr, Option, Outcome, ok, panics, assert, assert_failed, expect_none, explicit,
  ◌>>=◌, ◌>>◌,
}
use onlyio.Base.Int.{is_not_positive}
use onlyio.BufPool.{RwBuffer}
use onlyio.Runtime.{Runtime}
use onlyio.Calls.{Poll, Polled}
use onlyio.Calls.Read.{ReadFuture, poll_read, drop_rw_buffer}
use onlyio.Calls.Entry.{read}
use onlyio.Calls.Commit.{CommitFuture, commit, poll_commit}

pub data Connexion : Type 0 where
  start : (conn_fd : ℕ) → Connexion
  reading : ReadFuture → Connexion
  committing : RwBuffer → CommitFuture → Connexion
  done : Connexion

module _ {F : Type 0} where
  -- `buffer.commit(len).await > 0`: the handle is dropped when `commit` returns.
  unfoldable pub await_commit : RwBuffer → CommitFuture → Runtime F → Polled F Connexion (Unit {0})
  await_commit buffer f rt = do
    r ← poll_commit f rt
    elim (r.0) [
      | Poll.pending ↦ ok (Poll.pending, Connexion.committing buffer r.1, r.2)
      | Poll.ready n ↦ (do
        rt' ← drop_rw_buffer buffer r.2
        assert (not (is_not_positive n)) assert_failed
        ok (Poll.ready tt, Connexion.done, rt'))
    ]

  -- `read(conn_fd).await.expect("Read failed")`, and what follows in the same poll
  unfoldable pub await_read :
      (ℕ → Option ℕ) → ReadFuture → Runtime F → Polled F Connexion (Unit {0})
  unfolding await_commit commit
  await_read buffer_select f rt = do
    r ← poll_read buffer_select f rt
    elim (r.0) [
      | Poll.pending ↦ ok (Poll.pending, Connexion.reading r.1, r.2)
      | Poll.ready answer ↦ elim answer [
        | inl buffer ↦
            await_commit (commit buffer buffer.bytes).0 (commit buffer buffer.bytes).1 r.2
        | inr e ↦ panics expect_none
      ]
    ]

  -- A future that has finished panics when it is polled again.
  unfoldable pub poll_connexion :
      (ℕ → Option ℕ) → Connexion → Runtime F → Polled F Connexion (Unit {0})
  unfolding await_read await_commit
  poll_connexion buffer_select (Connexion.start conn_fd) rt =
      await_read buffer_select (read conn_fd) rt
  poll_connexion buffer_select (Connexion.reading f) rt = await_read buffer_select f rt
  poll_connexion buffer_select (Connexion.committing buffer f) rt = await_commit buffer f rt
  poll_connexion buffer_select Connexion.done rt = panics explicit
