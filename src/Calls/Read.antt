-- ===== src/Calls/Read.antt =====
-- src/calls/read.rs, and `Drop for RwBuffer` of src/buf_pool.rs.
use onlyio.Base.{
  ℕ, Bool, ◌⊎◌, inl, inr, Option, none, some, Outcome, ok, expect, expect_none, ◌>>=◌,
  if◌then◌else◌,
}
use onlyio.Base.Int.{ℤ, is_negative, is_not_positive, as_u32}
use onlyio.BufPool.{RwBuffer, checkout_read}
use onlyio.Runtime.{Runtime, pages, release_read_buf}
use onlyio.Runtime.Submit.{submit_read, submit_recv_multishot}
use onlyio.Calls.{Poll, Polled}

pub data ReadFuture : Type 0 where
  init pending : (fd : ℕ) → ReadFuture

pub data ReadStreamState : Type 0 where
  init running done : ReadStreamState

pub record ReadStream : Type 0 where
  pub fd : ℕ
  pub state : ReadStreamState

module _ {F : Type 0} where
  -- `Drop for RwBuffer`
  unfoldable pub drop_rw_buffer : RwBuffer → Runtime F → Outcome (Runtime F)
  drop_rw_buffer b rt = if b.committed then ok rt else release_read_buf b.buf_idx rt

module _ {F : Type 0} (buffer_select : ℕ → Option ℕ) where
  -- `Ok` is `inl`.
  unfoldable pub poll_read : ReadFuture → Runtime F → Polled F ReadFuture (RwBuffer ⊎ ℤ)
  poll_read (ReadFuture.init fd) rt = do
    rt' ← submit_read fd rt
    ok (Poll.pending, ReadFuture.pending fd, rt')
  poll_read (ReadFuture.pending fd) rt =
      if is_not_positive rt.current.result
      then (do
        rt' ← elim (buffer_select rt.current.flags) [
          | none ↦ ok rt
          | some buf_id ↦ release_read_buf buf_id rt
        ]
        ok (Poll.ready (inr rt.current.result), ReadFuture.pending fd, rt'))
      else (do
        buf_id ← expect (buffer_select rt.current.flags) expect_none
        rwbuf ← checkout_read pages rt.buffer buf_id fd (as_u32 rt.current.result)
        ok (Poll.ready (inl rwbuf), ReadFuture.pending fd, rt))

  unfoldable pub poll_next_read :
      (ℕ → Bool) → ReadStream → Runtime F → Polled F ReadStream (Option RwBuffer)
  poll_next_read more s rt = elim s.state [
    | init ↦ (do
      rt' ← submit_recv_multishot s.fd rt
      ok (Poll.pending, record s { state = ReadStreamState.running }, rt'))
    | running ↦
        if is_negative rt.current.result
        then ok (Poll.ready none, record s { state = ReadStreamState.done }, rt)
        else (do
          buf_id ← expect (buffer_select rt.current.flags) expect_none
          buf ← checkout_read pages rt.buffer buf_id s.fd (as_u32 rt.current.result)
          ok (
            Poll.ready (some buf),
            if more rt.current.flags then s else record s { state = ReadStreamState.done },
            rt,
          ))
    | done ↦ ok (Poll.ready none, s, rt)
  ]
