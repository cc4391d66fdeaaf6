-- ===== src/Calls/Socket.antt =====
-- src/calls/socket.rs. `addr` stands for the `sockaddr_in`, whose size is `addrlen`. The pattern of
-- `Connecting` copies it into the frame of `poll`, and the address of that copy is what goes to
-- `submit_connect`: `frame`, which is a dead address as soon as the poll has returned.
use onlyio.Base.{ℕ, ok, panics, unreachable, ◌>>=◌, if◌then◌else◌, ◌==◌}
use onlyio.Base.Int.{as_u32}
use onlyio.Runtime.{Runtime}
use onlyio.Runtime.Submit.{submit_socket, submit_connect}
use onlyio.Calls.{Poll, Polled}

pub data SocketFuture : Type 0 where
  create_socket : (addr : ℕ) → SocketFuture
  connecting : (fd addr : ℕ) → SocketFuture
  pending : SocketFuture

module _ {F : Type 0} (addrlen frame : ℕ) where
  unfoldable pub poll_socket : SocketFuture → Runtime F → Polled F SocketFuture ℕ
  poll_socket (SocketFuture.create_socket addr) rt = do
    rt' ← submit_socket rt
    ok (Poll.pending, SocketFuture.connecting 0 addr, rt')
  poll_socket (SocketFuture.connecting fd addr) rt =
      if fd == 0
      then (do
        rt' ← submit_connect (as_u32 rt.current.result) frame addrlen rt
        ok (Poll.pending, SocketFuture.connecting (as_u32 rt.current.result) addr, rt'))
      else ok (Poll.ready fd, SocketFuture.pending, rt)
  poll_socket SocketFuture.pending rt = panics unreachable
