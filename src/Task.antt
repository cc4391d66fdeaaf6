-- ===== src/Task.antt =====
-- src/task.rs: the header of a task and the operations on it. The erased future with its `poll_fn`
-- and `drop_fn` is a value of a type `F`. Arithmetic is that of a build with overflow checks.
pub mod Layout
pub mod Call
pub mod Count
pub mod Store
pub mod Release
use onlyio.Base.{
  ℕ, ◌+◌, ◌-◌, ◌*◌, ◌/◌, ◌^◌, Bool, not, Option, none, some, Outcome, ok, assert, expect,
  assert_failed, expect_none, ◌>>=◌, ◌>>◌, ltb, leb, ◌==◌, max, if◌then◌else◌,
}
use onlyio.Words.{rank, multiple_bit, set_multiple}

pub record RawTask (F : Type 0) : Type 0 where
  pub future : F
  pub alloc_size : ℕ
  pub ref_counter : ℕ
  pub syscall_nb : ℕ
  pub slab_idx : Option ℕ

-- `size_of::<RawTask>()` and `align_of::<RawTask>()`
abbrev pub raw_task_size : ℕ
raw_task_size = 32

abbrev pub raw_task_align : ℕ
raw_task_align = 32

-- `size` rounded up to a multiple of `align`, as `Layout` pads
abbrev pub round_up : ℕ → ℕ → ℕ
round_up size align = (size + align - 1) / align * align

-- `checked_add` of a `u16`
abbrev pub checked_add16 : ℕ → ℕ → Option ℕ
checked_add16 a b = if ltb (a + b) (2 ^ 16) then some (a + b) else none

pub data SyscallNbCompResult : Type 0 where
  expired normal multiple error : SyscallNbCompResult

-- `evaluate_syscall_nb`, over the number that the task stores
unfoldable pub evaluate : ℕ → ℕ → SyscallNbCompResult
evaluate stored incoming =
    if ltb (rank incoming) (rank stored)
    then expired
    else if ltb (rank stored) (rank incoming)
    then error
    else if not (multiple_bit stored == multiple_bit incoming)
    then error
    else if not (multiple_bit stored == 0)
    then multiple
    else normal

module _ {F : Type 0} where
  -- `Task::new`, for a future of size `size` and alignment `align`: the header and the offset of
  -- the future in the allocation. Allocation itself is the allocator's.
  unfoldable pub new : ℕ → ℕ → F → Outcome (RawTask F × ℕ)
  new size align future = do
    assert (leb align raw_task_align) assert_failed
    let future_offset = round_up raw_task_size align
    let alloc_size = round_up (future_offset + size) (max align raw_task_align)
    assert (leb alloc_size (2 ^ 63 - 1)) expect_none
    assert (future_offset == raw_task_size) assert_failed
    assert (leb alloc_size (2 ^ 32 - 1)) assert_failed
    ok (
      record {
        future = future;
        alloc_size = alloc_size;
        ref_counter = 1;
        syscall_nb = 0;
        slab_idx = none;
      },
      future_offset,
    )

  unfoldable pub evaluate_syscall_nb : RawTask F → ℕ → SyscallNbCompResult
  unfolding evaluate
  evaluate_syscall_nb t incoming = evaluate t.syscall_nb incoming

  unfoldable pub augmente_syscall_nb : RawTask F → Outcome (RawTask F)
  augmente_syscall_nb t = do
    nb_inc ← expect (checked_add16 (rank t.syscall_nb) 1) expect_none
    ok (record t { syscall_nb = nb_inc })

  unfoldable pub set_multishot : RawTask F → RawTask F
  set_multishot t = record t { syscall_nb = set_multiple t.syscall_nb }

  unfoldable pub add_rc : RawTask F → ℕ → Outcome (RawTask F)
  add_rc t count = do
    next ← expect (checked_add16 t.ref_counter count) expect_none
    assert (not (set_multiple t.ref_counter == set_multiple next)) assert_failed
    ok (record t { ref_counter = next })

  unfoldable pub inc_rc : RawTask F → Outcome (RawTask F)
  inc_rc t = do
    next ← expect (checked_add16 t.ref_counter 1) expect_none
    assert (not (set_multiple t.ref_counter == set_multiple next)) assert_failed
    ok (record t { ref_counter = next })

  unfoldable pub set_task_idx : RawTask F → ℕ → RawTask F
  set_task_idx t i = record t { slab_idx = some i }
