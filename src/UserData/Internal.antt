-- ===== src/UserData/Internal.antt =====
-- src/buf_pool.rs, lines 26 to 48: the `user_data` of writes that no task waits for.
use onlyio.Base.{ℕ, ◌+◌, ◌/◌, ◌%◌, ◌^◌, Bool, ◌&&◌, ◌==◌, Outcome, ok, assert, assert_failed, ◌>>◌}

-- `1 << 63`
abbrev pub internal_flag : ℕ
internal_flag = 2 ^ 63

-- `INTERNAL_FLAG | (1 << 32)`
abbrev pub rwbuf_write_udata : ℕ
rwbuf_write_udata = internal_flag + 2 ^ 32

-- `INTERNAL_FLAG | abs_idx as u64`: a `u32` has no bit in common with the flag.
unfoldable pub wbuf_write_udata : ℕ → ℕ
wbuf_write_udata abs_idx = internal_flag + abs_idx

-- `udata & INTERNAL_FLAG != 0`
unfoldable pub is_internal_cqe : ℕ → Bool
is_internal_cqe udata = udata / internal_flag % 2 == 1

-- The assertion is a `debug_assert!`.
unfoldable pub decode_wbuf_udata : ℕ → Outcome ℕ
unfolding is_internal_cqe
decode_wbuf_udata udata = do
  assert (is_internal_cqe udata && udata / 2 ^ 32 == 1) assert_failed
  ok (udata % 2 ^ 32)
