-- ===== src/Calls/Slots.antt =====
-- Where the read slot of a completion goes: src/calls/read.rs and src/calls/commit.rs.
use onlyio.Base.{
  ℕ, ◌+◌, ◌*◌, ◌<◌, ◌≡◌, refl, ◌⊎◌, inl, inr, Bool-cases, false, List, [], ◌∷◌, ◌++◌, Option, some,
  Outcome, ok, ◌>>=◌, if◌then◌else◌, length, lt→ltb,
}
use onlyio.Base.Int.{ℤ, is_not_positive, as_u32}
use onlyio.BufPool.{RwBuffer, buf_size, checkout_read}
use onlyio.BufRing.{BufRing}
use onlyio.BufRing.Window.{Holds, ring_size, release-Holds}
use onlyio.Runtime.{Runtime, pages, release_read_buf}
use onlyio.Calls.{Poll}
use onlyio.Calls.Read.{ReadFuture, drop_rw_buffer, poll_read}
use onlyio.Calls.Commit.{CommitFuture, commit, poll_commit}

module _ {F : Type 0} where
  -- The answer of a read is dropped without a commit.
  abbrev pub drop_answer : Poll (RwBuffer ⊎ ℤ) × ReadFuture × Runtime F → Outcome (Runtime F)
  drop_answer (Poll.ready (inl w), s, rt) = drop_rw_buffer w rt
  drop_answer (Poll.ready (inr e), s, rt) = ok rt
  drop_answer (Poll.pending, s, rt) = ok rt

  abbrev pub with_ring : Runtime F → BufRing → Runtime F
  with_ring rt r = record rt { buf_ring = r }

  -- The handle that a read of `fd` gets on the slot `b`
  abbrev pub handle : Runtime F → ℕ → ℕ → RwBuffer
  handle rt b fd = record {
    ptr = rt.buffer.base + b * buf_size pages;
    buf_idx = b;
    fd_idx = fd;
    bytes = as_u32 rt.current.result;
    committed = false;
  }

module _ {F : Type 0} (rt : Runtime F) (head b : ℕ) (avail : List ℕ)
    (c : rt.buffer.read_count ≡ ring_size) (v : Holds pages rt.buffer rt.buf_ring head avail)
    (room : length avail < ring_size) (h : b < ring_size) where
  released :
      (r' : BufRing) × (release_read_buf b rt ≡ ok (with_ring rt r'))
      × Holds pages rt.buffer r' head (avail ++ b ∷ [])
  unfolding release_read_buf
  released =
      let d = release-Holds pages rt.buffer rt.buf_ring head b avail c v room h in
      (d.0, rw d.1, d.2)

  checked_out :
      (fd : ℕ) → checkout_read pages rt.buffer b fd (as_u32 rt.current.result) ≡ ok (handle rt b fd)
  unfolding checkout_read
  checked_out fd = rw (c, lt→ltb b ring_size h)

  -- With 512 read slots and room in the ring: a read whose completion names the read slot `b` is answered at once: with the error if the result is
  -- not positive, else with a handle on that slot, its address and the length of the data. Once
  -- the answer is dropped, and for an error already before, the ring has the slot back, behind
  -- those it had; nothing else of the runtime changes.
  pub poll_read-Releases :
      (buffer_select : ℕ → Option ℕ) (fd : ℕ)
      → buffer_select rt.current.flags ≡ some b
      → (r' : BufRing) × (poll_read buffer_select (ReadFuture.pending fd) rt ≡ (
          if is_not_positive rt.current.result
          then ok (Poll.ready (inr rt.current.result), ReadFuture.pending fd, with_ring rt r')
          else ok (Poll.ready (inl (handle rt b fd)), ReadFuture.pending fd, rt)))
        × ((poll_read buffer_select (ReadFuture.pending fd) rt >>= drop_answer)
            ≡ ok (with_ring rt r'))
        × Holds pages rt.buffer r' head (avail ++ b ∷ [])
  unfolding poll_read drop_rw_buffer
  poll_read-Releases buffer_select fd e = elim (Bool-cases (is_not_positive rt.current.result)) [
    | inl n ↦ (released.0, rw (n, e, released.1), rw (n, e, released.1), released.2)
    | inr n ↦
        (released.0, rw (n, e, checked_out fd), rw (n, e, checked_out fd) released.1, released.2)
  ]

  -- With 512 read slots and room in the ring: a handle on a read slot that was committed keeps its slot
  -- when it is dropped. The completion of the commit's
  -- write, whatever its result, gives the slot back to the ring once, behind those it had, and
  -- answers with that result.
  pub poll_commit-Releases :
      (w : RwBuffer) (len : ℕ)
      → w.buf_idx ≡ b
      → (r' : BufRing) × (drop_rw_buffer (commit w len).0 rt ≡ ok rt)
        × (poll_commit (CommitFuture.pending w.buf_idx) rt
            ≡ ok (Poll.ready rt.current.result, CommitFuture.pending b, with_ring rt r'))
        × Holds pages rt.buffer r' head (avail ++ b ∷ [])
  unfolding drop_rw_buffer commit poll_commit
  poll_commit-Releases w len e = (released.0, refl, rw (e, released.1), released.2)
