-- ===== src/UserData/Tags.antt =====
-- `Tag` of src/runtime.rs: a task's index and the number of the call that it waits for.
use onlyio.Base.{ℕ, ◌+◌, ◌%◌}
use onlyio.Words.{multiple_mask, rank}

pub record Tag : Type 0 where
  pub task_idx : ℕ
  pub syscall_nb : ℕ

unfoldable pub new : ℕ → Tag
new i = record { task_idx = i; syscall_nb = 0 }

unfoldable pub augmente_syscall_nb : Tag → Tag
augmente_syscall_nb t = record t { syscall_nb = (rank t.syscall_nb + 1) % multiple_mask }
