-- ===== src/Server.antt =====
-- The main task of `test_two_connexion` and `test_close` of src/lib.rs: it accepts connections one after
-- the other, and spawns `handle_connexion` for each. Its states are those of the future that it awaits.
pub mod Acting
pub mod Costs
pub mod Runs
use onlyio.Base.{
  ℕ, zero, suc, ◌⊎◌, inl, inr, Option, none, some, Outcome, ok, panics, expect, assert_failed,
  expect_none, explicit, unreachable, ◌>>=◌,
}
use onlyio.Base.Int.{ℤ}
use onlyio.Runtime.{Runtime}
use onlyio.Runtime.Dispatch.{spawn}
use onlyio.Calls.{Poll, Polled}
use onlyio.Calls.Accept.{AcceptFuture, poll_accept}
use onlyio.Calls.Entry.{accept}
use onlyio.Connexion.{Connexion, poll_connexion}

-- `rest` connections are still to be accepted after the one that is awaited.
pub data Server : Type 0 where
  accepting : (rest : ℕ) → AcceptFuture → Server
  done : Server

-- The futures of the program
pub data Program : Type 0 where
  main : Server → Program
  connexion : Connexion → Program

-- `allocate` is the global allocator's answer for the block of a connection's task, or none where it
-- has no memory; `size` and `align` are the layout that the compiler chose for its future.
module _ (buffer_select : ℕ → Option ℕ) (allocate : Runtime Program → Option ℕ)
    (size align listen_fd : ℕ) where
  -- What a spawned task is polled by
  unfoldable pub poll_spawned : Program → Runtime Program → Outcome (Program × Runtime Program)
  poll_spawned (Program.connexion c) rt = do
    r ← poll_connexion buffer_select c rt
    ok (Program.connexion r.1, r.2)
  poll_spawned (Program.main s) rt = panics unreachable

  -- `spawn(handle_connexion(conn_fd))`
  unfoldable pub spawn_connexion : ℕ → Runtime Program → Outcome (Runtime Program)
  unfolding poll_spawned
  spawn_connexion conn_fd rt = do
    p ← expect (allocate rt) assert_failed
    spawn poll_spawned p size align (Program.connexion (Connexion.start conn_fd)) rt

  -- The rest of the loop's body once an `accept` has been polled, and the next round in the same poll
  unfoldable pub accepted :
      ℕ
      → (Runtime Program → Polled Program Server (Unit {0}))
      → Poll (ℕ ⊎ ℤ) × AcceptFuture × Runtime Program
      → Polled Program Server (Unit {0})
  unfolding spawn_connexion
  accepted rest next (Poll.pending, f, rt) = ok (Poll.pending, Server.accepting rest f, rt)
  accepted rest next (Poll.ready (inl conn_fd), f, rt) = do
    rt' ← spawn_connexion conn_fd rt
    next rt'
  accepted rest next (Poll.ready (inr e), f, rt) = panics expect_none

  unfoldable pub await_accept :
      ℕ → AcceptFuture → Runtime Program → Polled Program Server (Unit {0})
  unfolding accepted
  await_accept zero f rt = do
    r ← poll_accept f rt
    accepted 0 (λ rt'. ok (Poll.ready tt, Server.done, rt')) r
  await_accept (suc rest) f rt = do
    r ← poll_accept f rt
    accepted (suc rest) (λ rt'. await_accept rest (accept listen_fd) rt') r

  -- A future that has finished panics when it is polled again.
  unfoldable pub poll_server : Server → Runtime Program → Polled Program Server (Unit {0})
  unfolding await_accept
  poll_server (Server.accepting rest f) rt = await_accept rest f rt
  poll_server Server.done rt = panics explicit

  unfoldable pub poll_program : Program → Runtime Program → Outcome (Program × Runtime Program)
  unfolding poll_spawned poll_server
  poll_program (Program.main s) rt = do r ← poll_server s rt; ok (Program.main r.1, r.2)
  poll_program (Program.connexion c) rt = poll_spawned (Program.connexion c) rt
