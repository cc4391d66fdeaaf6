-- ===== src/Calls/Write.antt =====
-- src/calls/write.rs.
use onlyio.Base.{
  ℕ, ◌%◌, ◌^◌, not, List, [], ◌∷◌, ◌++◌, ok, undefined, assert, expect, assert_failed, sub_overflow,
  ◌>>=◌, ◌>>◌, if◌then◌else◌, ◌==◌, length, get_elem?, set,
}
use onlyio.Base.Int.{ℤ, is_negative, as_u32}
use onlyio.UserData.{set_to_next_task}
use onlyio.Task.Store.{pred?}
use onlyio.BufPool
use onlyio.BufPool.{WBuffer}
use onlyio.Slab.{u32_max}
use onlyio.Runtime.{Runtime, advance_syscall_nb}
use onlyio.Runtime.Submit.{submit_write, submit_multiple_write}
use onlyio.Calls.{Poll, Polled}

pub data WriteFuture : Type 0 where
  init : (fd buf_id len : ℕ) → WriteFuture
  pending : WriteFuture

pub data WriteResult : Type 0 where
  failed : (fd : ℕ) → WriteResult
  partial : (fd len : ℕ) → WriteResult

pub data WriteMultipleFuture : Type 0 where
  init : (fds : List ℕ) (buffer : WBuffer) (len : ℕ) → WriteMultipleFuture
  pending :
      (in_fligth_count : ℕ) (fds : List ℕ) (faileds : List WriteResult) (len : ℕ) (buffer : WBuffer)
      → WriteMultipleFuture
  poisoned : WriteMultipleFuture

-- What one completion adds to the list, the two tests of the source one after the other
unfoldable pub report : ℕ → ℕ → ℤ → List WriteResult
report fd len result =
    (if is_negative result then failed fd ∷ [] else [])
    ++ (if as_u32 result == len then [] else partial fd (as_u32 result) ∷ [])

module _ {F : Type 0} where
  unfoldable pub poll_write : WriteFuture → Runtime F → Polled F WriteFuture ℤ
  poll_write (WriteFuture.init fd buf_id len) rt = do
    rt' ← submit_write fd buf_id len rt
    ok (Poll.pending, WriteFuture.pending, rt')
  poll_write WriteFuture.pending rt = ok (Poll.ready rt.current.result, WriteFuture.pending, rt)

  unfoldable pub poll_write_multiple :
      WriteMultipleFuture → Runtime F → Polled F WriteMultipleFuture (List WriteResult)
  unfolding report
  poll_write_multiple (WriteMultipleFuture.init fds buffer len) rt = do
    c ← BufPool.clone rt.buffer buffer
    rt' ← submit_multiple_write fds c.0 len (record rt { buffer = c.1 })
    ok (Poll.pending, WriteMultipleFuture.pending (length fds % 2 ^ 16) fds [] len buffer, rt')
  poll_write_multiple (WriteMultipleFuture.pending in_fligth_count fds faileds len buffer) rt = do
    left ← expect (pred? in_fligth_count) sub_overflow
    fd ← expect (get_elem? fds rt.current.response_gen) assert_failed
    assert (not (fd == u32_max)) assert_failed
    let fds' = set fds rt.current.response_gen u32_max
    let faileds' = faileds ++ report fd len rt.current.result
    (if left == 0
        then (do
          rt' ← advance_syscall_nb rt.current.tag rt
          ok (
            Poll.ready faileds',
            WriteMultipleFuture.pending left fds' [] len buffer,
            record rt' { current = set_to_next_task rt'.current },
          ))
        else ok (Poll.pending, WriteMultipleFuture.pending left fds' faileds' len buffer, rt))
  poll_write_multiple WriteMultipleFuture.poisoned rt = undefined
