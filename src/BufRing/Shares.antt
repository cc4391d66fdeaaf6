-- ===== src/BufRing/Shares.antt =====
-- Kernel and runtime pass read slots to and fro through the ring, in any order: the steps, and the
-- share that each has.
use onlyio.Base.{
  ℕ, ◌+◌, ◌*◌, ◌%◌, ◌≤◌, ◌<◌, ◌^◌, ◌≡◌, ◌≢◌, refl, ap, subst, List, [], ◌∷◌, ◌++◌, some, ok, arith,
  length, get_elem?, count, count-append, length-append, Bool-cases, ltb, ltb→lt, ltb_false→le, inl,
  inr,
}
use onlyio.BufPool.{BufPool, range, buf_size}
use onlyio.BufRing.{BufRing, RingEntry, release_buf_to_ring}
use onlyio.BufRing.Window.{Holds, ring_size, release-Holds, take-Holds, head-eq-tail_iff}
use onlyio.BufRing.Init.{length-range}
use onlyio.BufPool.Invariant.{count-range_in, count-range_above}

-- The ring, the kernel's head, and the slots that completions have named and that were not released
-- yet
pub record World : Type 0 where
  pub ring : BufRing
  pub head : ℕ
  pub out : List ℕ

module _ (n : ℕ) (p : BufPool) where
  -- The kernel takes the entry at its head, unless the head is at the tail, and names its `bid` in
  -- a completion. The runtime releases a slot that it was given.
  pub data Step (w : World) : World → Type 0 where
    take :
        (e : RingEntry)
        → w.head % 2 ^ 16 ≢ w.ring.tail
        → get_elem? w.ring.entries (w.head % ring_size) ≡ some e
        → Step w (record { ring = w.ring; head = w.head + 1; out = e.bid ∷ w.out })
    give :
        (xs : List ℕ) (b : ℕ) (ys : List ℕ) (r : BufRing)
        → w.out ≡ xs ++ b ∷ ys
        → release_buf_to_ring n p w.ring b ≡ ok r
        → Step w (record { ring = r; head = w.head; out = xs ++ ys })

  pub data Reach (w : World) : World → Type 0 where
    here : Reach w w
    next : {u v : World} → Reach w u → Step u v → Reach w v

  -- Every read slot is either in the ring or given out, once.
  pub record Shares (w : World) (avail : List ℕ) : Type 0 where
    pub holds : Holds n p w.ring w.head avail
    pub once : (a : ℕ) → a < ring_size → count a avail + count a w.out ≡ 1
    pub only : (a : ℕ) → ring_size ≤ a → count a avail + count a w.out ≡ 0
    pub total : length avail + length w.out ≡ ring_size

  pub taken_slot :
      (u : World) (b : ℕ) (avail : List ℕ) (e : RingEntry)
      → Shares u (b ∷ avail)
      → get_elem? u.ring.entries (u.head % ring_size) ≡ some e
      → e.bid ≡ b
  taken_slot u b avail e s at = ground (arith, at, (take-Holds n p u.ring u.head b avail s.holds).0)

  pub take-Shares :
      (u : World) (b : ℕ) (avail : List ℕ) (e : RingEntry)
      → Shares u (b ∷ avail)
      → e.bid ≡ b
      → Shares (record { ring = u.ring; head = u.head + 1; out = e.bid ∷ u.out }) avail
  take-Shares u b avail e s same = record {
    holds = (take-Holds n p u.ring u.head b avail s.holds).1;
    once = λ a h. ground (arith, s.once a h, same);
    only = λ a h. ground (arith, s.only a h, same);
    total = omega (arith, s.total);
  }

  -- A slot that was given out is a read slot, and the ring has room for it.
  pub given_out :
      (u : World) (avail xs : List ℕ) (b : ℕ) (ys : List ℕ)
      → Shares u avail
      → u.out ≡ xs ++ b ∷ ys
      → (b < ring_size) × (length avail < ring_size)
  given_out u avail xs b ys s e = (
    elim (Bool-cases (ltb b ring_size)) [
      | inl l ↦ ltb→lt b ring_size l
      | inr l ↦ absurd (omega (arith, s.only b (ltb_false→le b ring_size l), counted))
    ],
    omega (arith, s.total, ap length e, length-append xs (b ∷ ys)),
  )
    where
      counted : 0 < count b u.out
      counted = rw (e, count-append) (ground arith)

  pub give-Shares :
      (u : World) (avail xs : List ℕ) (b : ℕ) (ys : List ℕ) (r : BufRing)
      → Shares u avail
      → u.out ≡ xs ++ b ∷ ys
      → Holds n p r u.head (avail ++ b ∷ [])
      → Shares (record { ring = r; head = u.head; out = xs ++ ys }) (avail ++ b ∷ [])
  give-Shares u avail xs b ys r s e v = record {
    holds = v;
    once = λ a h. omega (arith, moved a, s.once a h);
    only = λ a h. omega (arith, moved a, s.only a h);
    total = omega (
      arith,
      s.total,
      ap length e,
      length-append avail (b ∷ []),
      length-append xs (b ∷ ys),
      length-append xs ys,
    );
  }
    where
      moved :
          (a : ℕ) → count a (avail ++ b ∷ []) + count a (xs ++ ys) ≡ count a avail + count a u.out
      moved a = omega (
        arith,
        ap (count a) e,
        count-append a avail (b ∷ []),
        count-append a xs (b ∷ ys),
        count-append a xs ys,
      )

  pub released_world :
      (u : World) (avail xs : List ℕ) (b : ℕ) (ys : List ℕ) (r : BufRing)
      → Shares u avail
      → u.out ≡ xs ++ b ∷ ys
      → release_buf_to_ring n p u.ring b ≡ ok r
      → ((r' : BufRing) × (release_buf_to_ring n p u.ring b ≡ ok r')
          × Holds n p r' u.head (avail ++ b ∷ []))
      → Shares (record { ring = r; head = u.head; out = xs ++ ys }) (avail ++ b ∷ [])
  released_world u avail xs b ys r s e g (r', g', v) =
      give-Shares u avail xs b ys r s e (subst (λ q. Holds n p q u.head (avail ++ b ∷ [])) (cc) v)

  pub Step-Shares :
      {u v : World}
      → p.read_count ≡ ring_size
      → Step u v
      → (avail : List ℕ) → Shares u avail
      → (avail' : List ℕ) × Shares v avail'
  Step-Shares c (take e ne at) [] s = absurd (ne ((head-eq-tail_iff n p _ _ [] s.holds).1 refl))
  Step-Shares {u = u} c (take e ne at) (b ∷ avail) s =
      (avail, take-Shares u b avail e s (taken_slot u b avail e s at))
  Step-Shares {u = u} c (give xs b ys r e g) avail s = (
    avail ++ b ∷ [],
    released_world u avail xs b ys r s e g (
        release-Holds n p u.ring u.head b avail c s.holds (given_out u avail xs b ys s e).1
          (given_out u avail xs b ys s e).0),
  )

  pub Reach-Shares :
      {w v : World}
      → p.read_count ≡ ring_size
      → (avail : List ℕ) → Shares w avail
      → Reach w v
      → (avail' : List ℕ) × Shares v avail'
  Reach-Shares c avail s here = (avail, s)
  Reach-Shares c avail s (next r st) =
      let before = Reach-Shares c avail s r in Step-Shares c st before.0 before.1

  pub start-Shares :
      (r : BufRing)
      → p.read_count ≡ ring_size
      → Holds n p r 0 (range p.read_count 0)
      → Shares (record { ring = r; head = 0; out = [] }) (range p.read_count 0)
  start-Shares r c v = record {
    holds = v;
    once = λ a h. omega (arith, count-range_in p.read_count 0 a);
    only = λ a h. omega (arith, count-range_above p.read_count 0 a);
    total = omega (arith, c, length-range p.read_count 0);
  }

  pub queued :
      (w : World) (b : ℕ) (avail : List ℕ)
      → Shares w (b ∷ avail)
      → (count b w.out ≡ 0) × (b < ring_size)
  queued w b avail s = elim (Bool-cases (ltb b ring_size)) [
    | inl l ↦ (ground (arith, s.once b (ltb→lt b ring_size l)), ltb→lt b ring_size l)
    | inr l ↦ absurd (ground (arith, s.only b (ltb_false→le b ring_size l)))
  ]

  pub next_taken :
      (w : World) (avail : List ℕ) (e : RingEntry)
      → Shares w avail
      → w.head % 2 ^ 16 ≢ w.ring.tail
      → get_elem? w.ring.entries (w.head % ring_size) ≡ some e
      → (count e.bid w.out ≡ 0) × (e.bid < ring_size) × (e.addr ≡ p.base + e.bid * buf_size n)
  next_taken w [] e s ne at = absurd (ne ((head-eq-tail_iff n p _ _ [] s.holds).1 refl))
  next_taken w (b ∷ avail) e s ne at =
      ground (arith, at, (take-Holds n p w.ring w.head b avail s.holds).0, queued w b avail s)
