-- ===== src/Server/Acting.antt =====
-- What the server does to the runtime, whatever its allocator answers.
use onlyio.Base.{
  ℕ, zero, suc, ◌⊎◌, inl, inr, ◌≡◌, true, Option, none, some, Ensures, Ensures.returns,
  Ensures.stops, Ensures-bind, Ensures-map, Option-cases,
}
use onlyio.Base.Int.{ℤ}
use onlyio.Slab.{Slab, is_task}
use onlyio.Runtime.{Runtime}
use onlyio.Runtime.Acts.{Acts, Acts.done, HasRoom}
use onlyio.Runtime.Acts.Balance.{Polling, Polling-index}
use onlyio.Runtime.Acts.Keep.{Acts-Polling}
use onlyio.Runtime.Acts.Sequence.{Acts-Acts}
use onlyio.Runtime.Polls.{Lawful, cell_of}
use onlyio.Runtime.Polls.Nested.{spawn-Acts}
use onlyio.Calls.{Poll, Polled}
use onlyio.Calls.Accept.{AcceptFuture}
use onlyio.Calls.Acting.Futures.{poll_accept-Acts}
use onlyio.Connexion.{Connexion}
use onlyio.Connexion.Answers.{poll_connexion-Acts}
use onlyio.Server.{
  Server, Program, poll_spawned, spawn_connexion, accepted, await_accept, poll_server, poll_program,
}

-- The allocator answers with an even address at which no block lives.
pub record Allocator (allocate : Runtime Program → Option ℕ) : Type 0 where
  pub unused : (rt : Runtime Program) (p : ℕ) → allocate rt ≡ some p → rt.store.cells p ≡ none
  pub even : (rt : Runtime Program) (p : ℕ) → allocate rt ≡ some p → is_task p ≡ true

-- A bound on the run, and not a law of allocators: a block for a task is granted only while the slab
-- can grow without leaving the indices below 2 ^ 31.
abbrev pub Bounded : (Runtime Program → Option ℕ) → Type 0
Bounded allocate = (rt : Runtime Program) (p : ℕ) → allocate rt ≡ some p → HasRoom rt.tasks

module _ (buffer_select : ℕ → Option ℕ) (allocate : Runtime Program → Option ℕ)
    (memory : Allocator allocate) (bounded : Bounded allocate) (size align listen_fd : ℕ) where
  spawned-Lawful : Lawful (poll_spawned buffer_select allocate size align listen_fd)
  unfolding poll_spawned
  spawned-Lawful (Program.connexion c) rt extra i p s t v cell =
      Ensures-bind
        (poll_connexion-Acts rt p t (Polling-index extra i p s rt v) cell buffer_select c)
        λ polled a. returns a
  spawned-Lawful (Program.main s') rt extra i p s t v cell = stops

  module _ (extra : ℕ → ℕ) (i p : ℕ) (s : Slab) where
    spawn_connexion-Acts :
        (conn_fd : ℕ) (rt : Runtime Program)
        → Polling extra i p s rt
        → Ensures (Acts rt) (spawn_connexion buffer_select allocate size align listen_fd conn_fd rt)
    unfolding spawn_connexion
    spawn_connexion-Acts conn_fd rt v = elim (Option-cases (allocate rt)) [
      | inl no_memory ↦ rw no_memory stops
      | inr (q, given) ↦ rw given (
          spawn-Acts (poll_spawned buffer_select allocate size align listen_fd) spawned-Lawful extra
            i p s rt q size align (Program.connexion (Connexion.start conn_fd)) v
            (memory.unused rt q given) (memory.even rt q given) (bounded rt q given))
    ]

    -- Acts of the polled task, which may go on after them
    abbrev Polls : Runtime Program → Polled Program Server (Unit {0}) → Type 0
    Polls rt m = Ensures (λ (r : Poll (Unit {0}) × Server × Runtime Program). Acts rt r.2) m

    accepted-Acts :
        (rest : ℕ) (next : Runtime Program → Polled Program Server (Unit {0}))
        (r : Poll (ℕ ⊎ ℤ) × AcceptFuture × Runtime Program) (rt : Runtime Program)
        → Polling extra i p s rt
        → Acts rt r.2
        → ((u : Runtime Program) → Polling extra i p s u → Polls u (next u))
        → Polls rt (accepted buffer_select allocate size align listen_fd rest next r)
    unfolding accepted
    accepted-Acts rest next (Poll.pending, f, u) rt v a go = returns a
    accepted-Acts rest next (Poll.ready (inr e), f, u) rt v a go = stops
    accepted-Acts rest next (Poll.ready (inl conn_fd), f, u) rt v a go =
        let w = Acts-Polling extra i p s a v in
        Ensures-bind (spawn_connexion-Acts conn_fd u w) λ x b.
          Ensures-map (go x (Acts-Polling extra i p s b w)) λ r c. Acts-Acts a (Acts-Acts b c)

    await_accept-Acts :
        (rest : ℕ) (f : AcceptFuture) (rt : Runtime Program)
        → Polling extra i p s rt
        → Polls rt (await_accept buffer_select allocate size align listen_fd rest f rt)
    unfolding await_accept
    await_accept-Acts zero f rt v =
        let (t, cell) = cell_of extra i p rt v.balanced v.held v.found in
        Ensures-bind (poll_accept-Acts rt p t (Polling-index extra i p s rt v) cell f)
          λ r a. accepted-Acts 0 _ r rt v a λ u w. returns done
    await_accept-Acts (suc rest) f rt v =
        let (t, cell) = cell_of extra i p rt v.balanced v.held v.found in
        let again = await_accept-Acts rest (AcceptFuture.pending listen_fd) in
        Ensures-bind (poll_accept-Acts rt p t (Polling-index extra i p s rt v) cell f)
          λ r a. accepted-Acts (suc rest) _ r rt v a again

  -- A live task that runs the server, or a connection that the server spawned, is polled without
  -- undefined behaviour, but for the count that the last release of a task reads back from the block it
  -- has just freed, when the counts are in order, whatever the allocator answers that keeps to
  -- `Allocator` and `Bounded`; and what the poll does to the runtime is what `Acts` has.
  pub poll_program-Lawful : Lawful (poll_program buffer_select allocate size align listen_fd)
  unfolding poll_program poll_server
  poll_program-Lawful (Program.connexion c) rt extra i p s t v cell =
      spawned-Lawful (Program.connexion c) rt extra i p s t v cell
  poll_program-Lawful (Program.main (Server.accepting rest f)) rt extra i p s t v cell =
      Ensures-bind (await_accept-Acts extra i p s rest f rt v) λ r a. returns a
  poll_program-Lawful (Program.main Server.done) rt extra i p s t v cell = stops
