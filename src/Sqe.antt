-- ===== src/Sqe.antt =====
-- Submission entries: what the runtime passes to the builders of the `io_uring` crate.
use onlyio.Base.{ℕ}

-- The constructor names are those of `io_uring::opcode`; an address is a number.
pub data Op : Type 0 where
  read : (fd len group : ℕ) → Op
  accept : (listen_fd : ℕ) → Op
  write_fixed : (fd ptr len buf_index : ℕ) → Op
  recv_multi : (fd group : ℕ) → Op
  accept_multi : (listen_fd : ℕ) → Op
  connect : (fd addr addrlen : ℕ) → Op
  socket : Op

pub record Entry : Type 0 where
  pub op : Op
  pub user_data : ℕ
