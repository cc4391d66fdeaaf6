-- ===== src/Calls/Commit.antt =====
-- src/calls/commit.rs, and `RwBuffer::commit` of src/buf_pool.rs.
use onlyio.Base.{ℕ, ◌%◌, ◌^◌, true, ok, ◌>>=◌}
use onlyio.Base.Int.{ℤ}
use onlyio.BufPool.{RwBuffer}
use onlyio.Runtime.{Runtime, release_read_buf}
use onlyio.Runtime.Submit.{submit_commit_write}
use onlyio.Calls.{Poll, Polled}

pub data CommitFuture : Type 0 where
  init : (ptr buf_idx fd_idx len : ℕ) → CommitFuture
  pending : (buf_idx : ℕ) → CommitFuture

abbrev pub make_commit_future : ℕ → ℕ → ℕ → ℕ → CommitFuture
make_commit_future ptr buf_idx fd_idx len = CommitFuture.init ptr buf_idx fd_idx len

-- The handle, marked, and the future that `commit` awaits before it drops the handle
unfoldable pub commit : RwBuffer → ℕ → RwBuffer × CommitFuture
commit b len = (record b { committed = true }, make_commit_future b.ptr b.buf_idx b.fd_idx len)

module _ {F : Type 0} where
  unfoldable pub poll_commit : CommitFuture → Runtime F → Polled F CommitFuture ℤ
  poll_commit (CommitFuture.init ptr buf_idx fd_idx len) rt = do
    rt' ← submit_commit_write ptr fd_idx len (buf_idx % 2 ^ 16) rt
    ok (Poll.pending, CommitFuture.pending buf_idx, rt')
  poll_commit (CommitFuture.pending buf_idx) rt = do
    rt' ← release_read_buf buf_idx rt
    ok (Poll.ready rt.current.result, CommitFuture.pending buf_idx, rt')
