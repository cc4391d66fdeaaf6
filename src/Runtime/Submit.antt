-- ===== src/Runtime/Submit.antt =====
-- The functions of src/runtime.rs through which the futures of src/calls reach the runtime of the thread.
use onlyio.Base.{ℕ, List, Outcome}
use onlyio.BufPool.{WBuffer}
use onlyio.Runtime.{
  Runtime, send_read, send_accept, send_write, send_recv_multishot, send_accept_multishot,
  send_commit_write, send_connect, send_socket, send_multiple_write,
}

module _ {F : Type 0} where
  abbrev pub submit_read : ℕ → Runtime F → Outcome (Runtime F)
  submit_read fd rt = send_read fd rt

  abbrev pub submit_accept : ℕ → Runtime F → Outcome (Runtime F)
  submit_accept listen_fd rt = send_accept listen_fd rt

  abbrev pub submit_write : ℕ → ℕ → ℕ → Runtime F → Outcome (Runtime F)
  submit_write fd buf_id len rt = send_write fd buf_id len rt

  abbrev pub submit_recv_multishot : ℕ → Runtime F → Outcome (Runtime F)
  submit_recv_multishot fd rt = send_recv_multishot fd rt

  abbrev pub submit_accept_multishot : ℕ → Runtime F → Outcome (Runtime F)
  submit_accept_multishot listen_fd rt = send_accept_multishot listen_fd rt

  abbrev pub submit_commit_write : ℕ → ℕ → ℕ → ℕ → Runtime F → Outcome (Runtime F)
  submit_commit_write ptr fd_idx len buf_id rt = send_commit_write ptr fd_idx len buf_id rt

  abbrev pub submit_connect : ℕ → ℕ → ℕ → Runtime F → Outcome (Runtime F)
  submit_connect fd addr addrlen rt = send_connect fd addr addrlen rt

  abbrev pub submit_socket : Runtime F → Outcome (Runtime F)
  submit_socket rt = send_socket rt

  abbrev pub submit_multiple_write : List ℕ → WBuffer → ℕ → Runtime F → Outcome (Runtime F)
  submit_multiple_write fds buffer len rt = send_multiple_write fds buffer len rt
