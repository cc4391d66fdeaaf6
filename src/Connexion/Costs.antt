-- ===== src/Connexion/Costs.antt =====
-- What the task of a connection can still queue.
use onlyio.Base.{
  ℕ, ◌+◌, ◌≤◌, ◌≡◌, refl, not, ◌⊎◌, inl, inr, Option, ok, panics, arith, expect_none, assert_failed,
  assert, Yields, Yields.gives, Yields.fails, Yields-bind, Yields-map, Yields-assert, Yields-if,
  ◌>>=◌, ◌>>◌,
}
use onlyio.Base.Int.{ℤ, is_not_positive}
use onlyio.BufPool.{RwBuffer}
use onlyio.Runtime.{Runtime}
use onlyio.Runtime.Acts.{Acts, Acts.done}
use onlyio.Runtime.Acts.Sequence.{Acts-Acts}
use onlyio.Runtime.Cost.{cost}
use onlyio.Runtime.Cost.Sums.{cost-Acts-Acts}
use onlyio.Calls.{Poll}
use onlyio.Calls.Read.{ReadFuture, drop_rw_buffer}
use onlyio.Calls.Commit.{CommitFuture, commit}
use onlyio.Calls.Acting.Costs.{
  read_left, commit_left, release_read_buf-free, poll_read-Pays, poll_commit-Pays,
}
use onlyio.Connexion.{Connexion, await_read, await_commit, poll_connexion}

-- The entries that a connection still queues
abbrev pub connexion_left : Connexion → ℕ
connexion_left (Connexion.start conn_fd) = 2
connexion_left (Connexion.reading f) = 1 + read_left f
connexion_left (Connexion.committing b f) = commit_left f
connexion_left Connexion.done = 0

commit-left : (b : RwBuffer) → commit_left (commit b b.bytes).1 ≡ 1
unfolding commit
commit-left b = refl

module _ {F : Type 0} (rank : F → ℕ) where
  drop_rw_buffer-free :
      (b : RwBuffer) (rt : Runtime F)
      → Yields (λ v. (a : Acts rt v) × (cost rank a ≡ 0)) (drop_rw_buffer b rt)
  unfolding drop_rw_buffer cost
  drop_rw_buffer-free b rt =
      Yields-if b.committed (gives (done, refl)) (release_read_buf-free rank rt b.buf_idx)

  -- What is left of `n` entries
  abbrev pub Spares : Runtime F → ℕ → (Poll (Unit {0}) × Connexion × Runtime F) → Type 0
  Spares rt n r = (a : Acts rt r.2) × (connexion_left r.1 + cost rank a ≤ n)

  await_commit-Spares :
      (b : RwBuffer) (f : CommitFuture) (rt : Runtime F)
      → Yields (Spares rt (commit_left f)) (await_commit b f rt)
  unfolding await_commit
  await_commit-Spares b f rt = Yields-bind (poll_commit-Pays rank rt f) λ r a. ended r a.0 a.1
    where
      ended :
          (r : Poll ℤ × CommitFuture × Runtime F) (a : Acts rt r.2)
          → commit_left r.1 + cost rank a ≤ commit_left f
          → Yields (Spares rt (commit_left f)) (elim (r.0) [
            | Poll.pending ↦ ok (Poll.pending, Connexion.committing b r.1, r.2)
            | Poll.ready n ↦ drop_rw_buffer b r.2 >>= λ rt'.
                assert (not (is_not_positive n)) assert_failed
                >> ok (Poll.ready tt, Connexion.done, rt')
          ])
      ended (Poll.pending, f', v) a l = gives (a, l)
      ended (Poll.ready n, f', v) a l = Yields-bind (drop_rw_buffer-free b v) λ u c.
          Yields-assert (not (is_not_positive n)) assert_failed
            (gives (Acts-Acts a c.0, omega (arith, c.1, cost-Acts-Acts rank a c.0)))

  await_read-Spares :
      (buffer_select : ℕ → Option ℕ) (f : ReadFuture) (rt : Runtime F)
      → Yields (Spares rt (1 + read_left f)) (await_read buffer_select f rt)
  unfolding await_read
  await_read-Spares buffer_select f rt =
      Yields-bind (poll_read-Pays rank rt buffer_select f) λ r a. next r a.0 a.1
    where
      next :
          (r : Poll (RwBuffer ⊎ ℤ) × ReadFuture × Runtime F) (a : Acts rt r.2)
          → read_left r.1 + cost rank a ≤ read_left f
          → Yields (Spares rt (1 + read_left f)) (elim (r.0) [
            | Poll.pending ↦ ok (Poll.pending, Connexion.reading r.1, r.2)
            | Poll.ready answer ↦ elim answer [
              | inl buffer ↦
                  await_commit (commit buffer buffer.bytes).0 (commit buffer buffer.bytes).1 r.2
              | inr e ↦ panics expect_none
            ]
          ])
      next (Poll.pending, f', v) a l = gives (a, omega arith)
      next (Poll.ready (inl b), f', v) a l =
          Yields-map (await_commit-Spares (commit b b.bytes).0 (commit b b.bytes).1 v)
            λ r c. (Acts-Acts a c.0, omega (arith, c.1, commit-left b, cost-Acts-Acts rank a c.0))
      next (Poll.ready (inr e), f', v) a l = fails

  -- Whenever a poll of `handle_connexion` returns, what it did to the runtime is a sequence of the
  -- runtime's calls that `Acts` has, and the entries that the connection may still queue, two before
  -- its first poll, have become fewer by those that it queued.
  pub poll_connexion-Spares :
      (buffer_select : ℕ → Option ℕ) (c : Connexion) (rt : Runtime F)
      → Yields (Spares rt (connexion_left c)) (poll_connexion buffer_select c rt)
  unfolding poll_connexion
  poll_connexion-Spares buffer_select (Connexion.start conn_fd) rt =
      await_read-Spares buffer_select (ReadFuture.init conn_fd) rt
  poll_connexion-Spares buffer_select (Connexion.reading f) rt =
      await_read-Spares buffer_select f rt
  poll_connexion-Spares buffer_select (Connexion.committing b f) rt = await_commit-Spares b f rt
  poll_connexion-Spares buffer_select Connexion.done rt = fails
