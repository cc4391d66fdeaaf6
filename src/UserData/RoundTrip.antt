-- ===== src/UserData/RoundTrip.antt =====
-- Packing and unpacking `user_data`.
use onlyio.Base.{ℕ, ◌^◌, ◌<◌, ◌≡◌, arith}
use onlyio.Base.Int.{ℤ}
use onlyio.UserData.{
  UserDataPayload, TaskInfo, into_user_data, from_user_data, from_entry, info_payload,
  current_udata,
}

-- The fields hold a `u32` and two `u16`.
pub record InRange (p : UserDataPayload) : Type 0 where
  pub idx_in : p.task_idx < 2 ^ 32
  pub gen_in : p.response_gen < 2 ^ 16
  pub nb_in : p.syscall_nb < 2 ^ 16

pub into-lt : {p : UserDataPayload} → InRange p → into_user_data p < 2 ^ 64
unfolding into_user_data
into-lt r = omega arith

pub from-into : {p : UserDataPayload} → InRange p → from_user_data (into_user_data p) ≡ p
unfolding into_user_data from_user_data
from-into r = ground arith

-- Packing and unpacking are inverse to each other: an in-range payload packs into a `u64` from
-- which it is read back, and every `u64` unpacks into an in-range payload that packs to it again.
pub user_data_round_trip :
    (p : UserDataPayload) (u : ℕ)
    → InRange p
    → u < 2 ^ 64
    → (into_user_data p < 2 ^ 64)
      × (from_user_data (into_user_data p) ≡ p)
      × InRange (from_user_data u)
      × (into_user_data (from_user_data u) ≡ u)
unfolding into_user_data from_user_data
user_data_round_trip p u r h = (into-lt r, from-into r, omega arith, ground arith)

-- A completion that carries the current task's `user_data`, of fields in range, gives back the tag and generation under
-- which the call was submitted, with the completion's own result and flags.
pub from_entry-current_udata :
    (t : TaskInfo) (result : ℤ) (flags : ℕ)
    → InRange (info_payload t)
    → from_entry (record { user_data = current_udata t; result = result; flags = flags })
      ≡ record t { result = result; flags = flags }
unfolding from_entry current_udata into_user_data from_user_data info_payload
from_entry-current_udata t result flags r = ground arith
