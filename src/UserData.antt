-- ===== src/UserData.antt =====
-- src/runtime.rs, lines 516 to 660: the 64-bit `user_data` of a submission, what a completion
-- tells the runtime of its task (`TaskInfo`), and wakers. A `u16` or `u32` field is a number; the
-- predicates `InRange` of the children bound it.
pub mod Tags
pub mod Internal
pub mod RoundTrip
pub mod Kinds
use onlyio.Base.{ℕ, ◌+◌, ◌-◌, ◌*◌, ◌/◌, ◌%◌, ◌^◌, Bool, if◌then◌else◌}
use onlyio.Base.Int.{ℤ, i32_min, i32_max}
use onlyio.Words.{u16_mod, u32_mod, rank, set_multiple}
use Tags.{Tag}

-- `SlabIdx`, a transparent `u32`
abbrev pub SlabIdx : Type 0
SlabIdx = ℕ

-- `SlabIdx::dummy()`
abbrev pub dummy_idx : SlabIdx
dummy_idx = 2 ^ 32 - 1

pub record UserDataPayload : Type 0 where
  pub task_idx : SlabIdx
  pub response_gen : ℕ
  pub syscall_nb : ℕ

-- `UserDataPayload` is `repr(C, align(8))`, read back as a little-endian `u64` through a union.
unfoldable pub into_user_data : UserDataPayload → ℕ
into_user_data p = p.task_idx + p.response_gen * 2 ^ 32 + p.syscall_nb * 2 ^ 48

unfoldable pub from_user_data : ℕ → UserDataPayload
from_user_data u = record {
  task_idx = u % 2 ^ 32;
  response_gen = u / 2 ^ 32 % 2 ^ 16;
  syscall_nb = u / 2 ^ 48 % 2 ^ 16;
}

-- What the accessors of `io_uring::cqueue::Entry` return.
pub record CqeEntry : Type 0 where
  pub user_data : ℕ
  pub result : ℤ
  pub flags : ℕ

pub record TaskInfo : Type 0 where
  pub tag : Tag
  pub result : ℤ
  pub flags : ℕ
  pub response_gen : ℕ

unfoldable pub dummy : TaskInfo
unfolding Tags.new
dummy = record {
  tag = Tags.new dummy_idx;
  result = i32_min;
  flags = u32_mod - 1;
  response_gen = u16_mod - 1;
}

unfoldable pub initial_poll : SlabIdx → TaskInfo
unfolding Tags.new
initial_poll i = record {
  tag = Tags.new i;
  result = i32_max;
  flags = 0;
  response_gen = u16_mod - 1;
}

unfoldable pub set_to_next_task : TaskInfo → TaskInfo
unfolding Tags.augmente_syscall_nb
set_to_next_task t = record {
  tag = Tags.augmente_syscall_nb t.tag;
  result = i32_min;
  flags = 0;
  response_gen = 0;
}

-- `TaskInfo::from_entry`
unfoldable pub from_entry : CqeEntry → TaskInfo
unfolding from_user_data
from_entry e =
    let p = from_user_data e.user_data in
    record {
      tag = record { task_idx = p.task_idx; syscall_nb = p.syscall_nb };
      result = e.result;
      flags = e.flags;
      response_gen = p.response_gen;
    }

-- `impl Into<UserDataPayload> for &TaskInfo`
unfoldable pub info_payload : TaskInfo → UserDataPayload
info_payload t = record {
  task_idx = t.tag.task_idx;
  response_gen = t.response_gen;
  syscall_nb = t.tag.syscall_nb;
}

-- `Runtime::current_udata`, over the value of CURRENT_TASK
unfoldable pub current_udata : TaskInfo → ℕ
unfolding info_payload into_user_data
current_udata t = into_user_data (info_payload t)

-- `Runtime::set_current_task_multiple`, over the value of CURRENT_TASK
unfoldable pub set_current_task_multiple : Bool → TaskInfo → TaskInfo
set_current_task_multiple is_multiple t = record t {
  tag = record {
    task_idx = t.tag.task_idx;
    syscall_nb = if is_multiple then set_multiple t.tag.syscall_nb else rank t.tag.syscall_nb;
  };
}

pub record Waker : Type 0 where
  pub payload : UserDataPayload

-- `TaskInfo::from_waker`. The tag takes its `syscall_nb` from the payload's `response_gen`, as the
-- source has it.
unfoldable pub from_waker : Waker → TaskInfo
from_waker w = record {
  tag = record { task_idx = w.payload.task_idx; syscall_nb = w.payload.response_gen };
  result = i32_min;
  flags = u32_mod - 1;
  response_gen = w.payload.response_gen;
}
