-- ===== src/Server/Costs.antt =====
-- What the server and its connections can still queue.
use onlyio.Base.{
  ℕ, zero, suc, ◌+◌, ◌*◌, ◌≤◌, ◌⊎◌, inl, inr, Option, assert_failed, arith, Yields, Yields.gives,
  Yields.fails, Yields-bind, Yields-map, Yields-expect,
}
use onlyio.Base.Int.{ℤ}
use onlyio.Runtime.{Runtime}
use onlyio.Runtime.Acts.{Acts, Acts.done}
use onlyio.Runtime.Acts.Sequence.{Acts-Acts}
use onlyio.Runtime.Cost.{cost, Thrifty}
use onlyio.Runtime.Cost.Sums.{cost-Acts-Acts}
use onlyio.Runtime.Cost.Nested.{Costs, spawn-Costs}
use onlyio.Calls.{Poll, Polled}
use onlyio.Calls.Accept.{AcceptFuture}
use onlyio.Calls.Acting.Costs.{accept_left, poll_accept-Pays}
use onlyio.Connexion.{Connexion}
use onlyio.Connexion.Costs.{connexion_left, poll_connexion-Spares}
use onlyio.Server.{
  Server, Program, poll_spawned, spawn_connexion, accepted, await_accept, poll_server, poll_program,
}
use onlyio.Server.Acting.{Allocator, Bounded}

-- An accept, and for each connection a read and a write; and as much for each one to come
abbrev pub server_left : Server → ℕ
server_left (Server.accepting rest f) = accept_left f + 2 + 3 * rest
server_left Server.done = 0

abbrev pub program_left : Program → ℕ
program_left (Program.main s) = server_left s
program_left (Program.connexion c) = connexion_left c

module _ (buffer_select : ℕ → Option ℕ) (allocate : Runtime Program → Option ℕ)
    (memory : Allocator allocate) (bounded : Bounded allocate) (size align listen_fd : ℕ) where
  spawned-Thrifty : Thrifty program_left (poll_spawned buffer_select allocate size align listen_fd)
  unfolding poll_spawned
  spawned-Thrifty (Program.connexion c) rt =
      Yields-bind (poll_connexion-Spares program_left buffer_select c rt) λ polled a. gives a
  spawned-Thrifty (Program.main s) rt = fails

  spawn_connexion-Costs :
      (conn_fd : ℕ) (rt : Runtime Program)
      → Yields
          (Costs program_left 2 rt)
          (spawn_connexion buffer_select allocate size align listen_fd conn_fd rt)
  unfolding spawn_connexion
  spawn_connexion-Costs conn_fd rt =
      Yields-bind (Yields-expect (allocate rt) assert_failed) λ q given.
        spawn-Costs program_left (poll_spawned buffer_select allocate size align listen_fd)
          spawned-Thrifty q size align (Program.connexion (Connexion.start conn_fd)) rt
          (memory.unused rt q given) (memory.even rt q given) (bounded rt q given)

  -- What is left of `n` entries
  abbrev Leaves : ℕ → Runtime Program → Polled Program Server (Unit {0}) → Type 0
  Leaves n rt m =
      Yields
        (λ (r : Poll (Unit {0}) × Server × Runtime Program).
          (a : Acts rt r.2) × (server_left r.1 + cost program_left a ≤ n))
        m

  accepted-Leaves :
      (rest n : ℕ) (f : AcceptFuture) (next : Runtime Program → Polled Program Server (Unit {0}))
      (r : Poll (ℕ ⊎ ℤ) × AcceptFuture × Runtime Program) (rt : Runtime Program) (a : Acts rt r.2)
      → accept_left r.1 + cost program_left a ≤ accept_left f
      → n ≤ 3 * rest
      → ((u : Runtime Program) → Leaves n u (next u))
      → Leaves
          (accept_left f + 2 + 3 * rest)
          rt
          (accepted buffer_select allocate size align listen_fd rest next r)
  unfolding accepted
  accepted-Leaves rest n f next (Poll.pending, f', u) rt a l few go = gives (a, omega arith)
  accepted-Leaves rest n f next (Poll.ready (inr e), f', u) rt a l few go = fails
  accepted-Leaves rest n f next (Poll.ready (inl conn_fd), f', u) rt a l few go =
      Yields-bind (spawn_connexion-Costs conn_fd u) λ x b. Yields-map (go x) λ r c. (
        Acts-Acts a (Acts-Acts b.0 c.0),
        omega (
          arith,
          b.1,
          c.1,
          cost-Acts-Acts program_left a (Acts-Acts b.0 c.0),
          cost-Acts-Acts program_left b.0 c.0,
        ),
      )

  await_accept-Leaves :
      (rest : ℕ) (f : AcceptFuture) (rt : Runtime Program)
      → Leaves
          (accept_left f + 2 + 3 * rest)
          rt
          (await_accept buffer_select allocate size align listen_fd rest f rt)
  unfolding await_accept cost
  await_accept-Leaves zero f rt =
      Yields-bind (poll_accept-Pays program_left rt f)
        λ r a. accepted-Leaves 0 0 f _ r rt a.0 a.1 (omega arith) λ u. gives (done, omega arith)
  await_accept-Leaves (suc rest) f rt =
      let again = await_accept-Leaves rest (AcceptFuture.pending listen_fd) in
      Yields-bind (poll_accept-Pays program_left rt f)
        λ r a. accepted-Leaves (suc rest) (1 + 2 + 3 * rest) f _ r rt a.0 a.1 (omega arith) again

  -- Whenever a poll of the server or of a connection returns, the entries that it may still queue have
  -- become fewer by those that it queued and those that the connections which it spawned may still
  -- queue: three for each connection that is still to be accepted.
  pub poll_program-Thrifty :
      Thrifty program_left (poll_program buffer_select allocate size align listen_fd)
  unfolding poll_program poll_server
  poll_program-Thrifty (Program.connexion c) rt = spawned-Thrifty (Program.connexion c) rt
  poll_program-Thrifty (Program.main (Server.accepting rest f)) rt =
      Yields-bind (await_accept-Leaves rest f rt) λ r a. gives a
  poll_program-Thrifty (Program.main Server.done) rt = fails
