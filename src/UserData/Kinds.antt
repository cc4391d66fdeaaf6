-- ===== src/UserData/Kinds.antt =====
-- The two layouts that share the 64 bits: a task's payload and the internal one of src/buf_pool.rs.
use onlyio.Base.{ℕ, ◌^◌, ◌≤◌, ◌<◌, ◌≡◌, ◌↔◌, true, panics, assert_failed, arith}
use onlyio.UserData.{UserDataPayload, into_user_data, from_user_data}
use onlyio.UserData.Internal.{wbuf_write_udata, is_internal_cqe, decode_wbuf_udata}
use onlyio.UserData.RoundTrip.{InRange}

-- A task's packed payload passes the test for internal completions exactly when its `syscall_nb`
-- has the multishot bit.
pub is_internal_cqe-into :
    (p : UserDataPayload)
    → InRange p
    → (is_internal_cqe (into_user_data p) ≡ true) ↔ (0x8000 ≤ p.syscall_nb)
unfolding is_internal_cqe into_user_data
is_internal_cqe-into p r = (λ h. ground arith, λ h. ground arith)

-- The internal `user_data` of a buffer write reads as a payload of the task whose slab index is
-- the buffer's, with the multishot bit.
pub from_user_data-wbuf :
    (i : ℕ)
    → i < 2 ^ 32
    → from_user_data (wbuf_write_udata i)
      ≡ record { task_idx = i; response_gen = 0; syscall_nb = 0x8000 }
unfolding from_user_data wbuf_write_udata
from_user_data-wbuf i h = ground arith

-- Decoding what `wbuf_write_udata` makes fails the debug assertion for every buffer index.
pub decode-wbuf_write_udata :
    (i : ℕ) → i < 2 ^ 32 → decode_wbuf_udata (wbuf_write_udata i) ≡ panics assert_failed
unfolding decode_wbuf_udata wbuf_write_udata
decode-wbuf_write_udata i h = ground arith
