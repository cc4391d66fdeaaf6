-- ===== src/BufRing/Steps.antt =====
-- What holds of the ring after any steps of the kernel and the runtime.
use onlyio.Base.{
  ℕ, ◌+◌, ◌*◌, ◌%◌, ◌<◌, ◌^◌, ◌≡◌, ◌≢◌, subst, List, [], ◌∷◌, ◌++◌, some, ok, get_elem?, count,
  Bool-cases, ltb, ltb→lt, ltb_false→le, inl, if◌then◌else◌, inr,
}
use onlyio.BufPool.{BufPool, range, buf_size}
use onlyio.BufRing.{BufRing, RingEntry, init, release_buf_to_ring}
use onlyio.BufRing.Window.{Holds, ring_size, release-Holds}
use onlyio.BufRing.Init.{init-Holds}
use onlyio.BufRing.Shares.{World, Reach, Shares, given_out, Reach-Shares, start-Shares, next_taken}

module _ (n : ℕ) (p : BufPool) where
  reached :
      {r : BufRing} {w : World}
      → p.read_count ≡ ring_size
      → init n p ≡ ok r
      → Reach n p (record { ring = r; head = 0; out = [] }) w
      → (avail : List ℕ) × Shares n p w avail
  reached {r} c i path = Reach-Shares n p c (range p.read_count 0) (start i (init-Holds n p c)) path
    where
      start :
          init n p ≡ ok r
          → ((r' : BufRing) × (init n p ≡ ok r') × Holds n p r' 0 (range p.read_count 0))
          → Shares n p (record { ring = r; head = 0; out = [] }) (range p.read_count 0)
      start i (r', i', v) =
          start-Shares n p r c (subst (λ q. Holds n p q 0 (range p.read_count 0)) (cc) v)

  -- Whatever the order in which the kernel takes slots from a new ring of 512 and the runtime releases
  -- slots that it was given: the ring holds a queue of slots between head and tail, and every read
  -- slot is either in that queue or given out, once, and no other index is.
  pub Reach-once :
      {r : BufRing} {w : World}
      → p.read_count ≡ ring_size
      → init n p ≡ ok r
      → Reach n p (record { ring = r; head = 0; out = [] }) w
      → (avail : List ℕ) × Holds n p w.ring w.head avail
        × ((a : ℕ) → count a avail + count a w.out ≡ (if ltb a ring_size then 1 else 0))
  Reach-once {w} c i path = found (reached c i path)
    where
      found :
          ((avail : List ℕ) × Shares n p w avail)
          → (avail : List ℕ) × Holds n p w.ring w.head avail
            × ((a : ℕ) → count a avail + count a w.out ≡ (if ltb a ring_size then 1 else 0))
      found (avail, s) = (
        avail,
        s.holds,
        λ a. elim (Bool-cases (ltb a ring_size)) [
          | inl l ↦ rw l (s.once a (ltb→lt a ring_size l))
          | inr l ↦ rw l (s.only a (ltb_false→le a ring_size l))
        ],
      )

  -- After any order of takes by the kernel and releases by the runtime from a new ring of 512, a slot
  -- that is given out, in any place of the list, can be released: its index passes the assertion, and
  -- the ring then holds it behind the slots that were there.
  pub Reach-release :
      {r : BufRing} {w : World} (xs : List ℕ) (b : ℕ) (ys : List ℕ)
      → p.read_count ≡ ring_size
      → init n p ≡ ok r
      → Reach n p (record { ring = r; head = 0; out = [] }) w
      → w.out ≡ xs ++ b ∷ ys
      → (avail : List ℕ) × (r' : BufRing) × Holds n p w.ring w.head avail
        × (release_buf_to_ring n p w.ring b ≡ ok r')
        × Holds n p r' w.head (avail ++ b ∷ [])
  Reach-release {w} xs b ys c i path e = found (reached c i path)
    where
      found :
          ((avail : List ℕ) × Shares n p w avail)
          → (avail : List ℕ) × (r' : BufRing) × Holds n p w.ring w.head avail
            × (release_buf_to_ring n p w.ring b ≡ ok r')
            × Holds n p r' w.head (avail ++ b ∷ [])
      found (avail, s) =
          let given = given_out n p w avail xs b ys s e in
          let d = release-Holds n p w.ring w.head b avail c s.holds given.1 given.0 in
          (avail, d.0, s.holds, d.1, d.2)

  -- After any order of takes by the kernel and releases by the runtime from a new ring of 512, an entry
  -- that the kernel takes next is that of a read slot that is not given out, with its own address.
  pub Reach-take :
      {r : BufRing} {w : World} (e : RingEntry)
      → p.read_count ≡ ring_size
      → init n p ≡ ok r
      → Reach n p (record { ring = r; head = 0; out = [] }) w
      → w.head % 2 ^ 16 ≢ w.ring.tail
      → get_elem? w.ring.entries (w.head % ring_size) ≡ some e
      → (count e.bid w.out ≡ 0) × (e.bid < ring_size) × (e.addr ≡ p.base + e.bid * buf_size n)
  Reach-take {w} e c i path ne at = let s = reached c i path in next_taken n p w s.0 e s.1 ne at
