-- ===== src/Tests/Slots.antt =====
-- Reads and commits on the ring of which the kernel has taken slot 0.
use onlyio.Base.{
  ℕ, ◌<◌, ◌≡◌, refl, subst, inl, [], ◌∷◌, ◌++◌, none, some, Option, ok, ◌>>=◌, arith, if◌then◌else◌,
  ◌==◌, length,
}
use onlyio.Base.Int.{pos}
use onlyio.BufPool.{range}
use onlyio.BufRing.{BufRing, init}
use onlyio.BufRing.Window.{Holds, take-Holds}
use onlyio.BufRing.Init.{init-Holds, length-range}
use onlyio.Runtime.{Runtime}
use onlyio.Calls.{Poll}
use onlyio.Calls.Read.{ReadFuture, poll_read, drop_rw_buffer}
use onlyio.Calls.Commit.{CommitFuture, commit, poll_commit}
use onlyio.Calls.Slots.{drop_answer, with_ring, handle, poll_read-Releases, poll_commit-Releases}
use onlyio.Tests.Rings.{pool, ring, init_ring}
use onlyio.Tests.Runs.{rt, at_call}

new_ring : Holds 1 pool ring 0 (range 512 0)
new_ring = from init_ring (init-Holds 1 pool refl)
  where
    from :
        init 1 pool ≡ ok ring
        → ((r' : BufRing) × (init 1 pool ≡ ok r') × Holds 1 pool r' 0 (range 512 0))
        → Holds 1 pool ring 0 (range 512 0)
    from e (r', i', v) = subst (λ q. Holds 1 pool q 0 (range 512 0)) (cc) v

-- After a completion with 12 bytes in slot 0
abbrev received : Runtime ℕ
received = record rt { buffer = pool; buf_ring = ring; current = at_call 3 }

left : Holds 1 pool ring 1 (range 511 1)
left = (take-Holds 1 pool ring 0 0 (range 511 1) new_ring).1

room : length (range 511 1) < 512
room = omega (arith, length-range 511 1)

-- Slot 0 for these flags only
abbrev select : ℕ → Option ℕ
select flags = if flags == 0 then some 0 else none

poll_read-Releases_example :
    (r' : BufRing) × (poll_read select (ReadFuture.pending 5) received
      ≡ ok (Poll.ready (inl (handle received 0 5)), ReadFuture.pending 5, received))
    × ((poll_read select (ReadFuture.pending 5) received >>= drop_answer)
        ≡ ok (with_ring received r'))
    × Holds 1 pool r' 1 (range 511 1 ++ 0 ∷ [])
poll_read-Releases_example =
    poll_read-Releases received 1 0 (range 511 1) refl left room (omega arith) select 5 refl

poll_commit-Releases_example :
    (r' : BufRing) × (drop_rw_buffer (commit (handle received 0 5) 12).0 received ≡ ok received)
    × (poll_commit (CommitFuture.pending 0) received
        ≡ ok (Poll.ready (pos 12), CommitFuture.pending 0, with_ring received r'))
    × Holds 1 pool r' 1 (range 511 1 ++ 0 ∷ [])
poll_commit-Releases_example =
    poll_commit-Releases received 1 0 (range 511 1) refl left room (omega arith)
      (handle received 0 5) 12 refl
