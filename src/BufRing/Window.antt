-- ===== src/BufRing/Window.antt =====
-- The entries between the kernel's head and the tail, as a queue of read slots. The pool is that of
-- `Runtime::new`, with 512 read slots.
use Prim.Native.Nat.{bit_and}
use onlyio.Base.{
  ℕ, ◌+◌, ◌-◌, ◌*◌, ◌%◌, ◌≤◌, ◌<◌, ◌^◌, ◌≡◌, refl, ap, ◌∙◌, ◌≢◌, true, List, [], ◌∷◌, ◌++◌, some,
  ok, arith, length, get_elem?, set, length-set, get_elem?-set_self, get_elem?-set_ne,
  length-append, ◌==◌, ==→eq, lt→ltb, ◌↔◌,
}
use native.Mathlib.Nat.{mod-eq_of_lt}
use onlyio.BufPool.{BufPool, buf_size, read_buf_addr}
use onlyio.BufRing.{RingEntry, BufRing, release_buf_to_ring}
use onlyio.Words.Bits.{holds_below, holds_below-at}

abbrev pub ring_size : ℕ
ring_size = 512

-- `tail & mask` for 512 entries
mask_table : holds_below (λ x. bit_and x (ring_size - 1) == x % ring_size) (2 ^ 16) ≡ true
unfolding holds_below
mask_table = refl

pub mask_lem : (x : ℕ) → x < 2 ^ 16 → bit_and x (ring_size - 1) ≡ x % ring_size
mask_lem x h =
    ==→eq _ _
      (holds_below-at (λ x. bit_and x (ring_size - 1) == x % ring_size) (2 ^ 16) x mask_table h)

module _ (n : ℕ) (p : BufPool) where
  -- The entry of the read slot `b`
  abbrev pub entry_of : ℕ → RingEntry
  entry_of b = record { addr = p.base + b * buf_size n; len = buf_size n % 2 ^ 32; bid = b }

  -- From index `h` on, going round, the ring holds the entries of these slots.
  abbrev pub Window : List RingEntry → ℕ → List ℕ → Type 0
  Window es h [] = Unit {0}
  Window es h (b ∷ bs) = (get_elem? es (h % ring_size) ≡ some (entry_of b)) × Window es (h + 1) bs

  -- A write at an index that the window does not reach
  pub Window-set :
      (es : List RingEntry) (i : ℕ) (e : RingEntry) (h : ℕ) (bs : List ℕ)
      → ((k : ℕ) → k < length bs → (h + k) % ring_size ≢ i)
      → Window es h bs
      → Window (set es i e) h bs
  Window-set es i e h [] apart w = tt
  Window-set es i e h (b ∷ bs) apart (x, w) = (
    get_elem?-set_ne es i (h % ring_size) e (λ q. apart 0 (omega arith) (omega arith)) ∙ x,
    Window-set es i e (h + 1) bs (λ k l q. apart (k + 1) (omega arith) (omega arith)) w,
  )

  pub Window-append :
      (es : List RingEntry) (h : ℕ) (bs : List ℕ) (b : ℕ)
      → Window es h bs
      → get_elem? es ((h + length bs) % ring_size) ≡ some (entry_of b)
      → Window es h (bs ++ b ∷ [])
  Window-append es h [] b w e = (ap (λ k. get_elem? es (k % ring_size)) (omega arith) ∙ e, tt)
  Window-append es h (c ∷ bs) b (x, w) e = (
    x,
    Window-append es (h + 1) bs b w (ap (λ k. get_elem? es (k % ring_size)) (omega arith) ∙ e),
  )

  -- The ring holds the queue `avail` from the kernel's head on.
  pub record Holds (r : BufRing) (head : ℕ) (avail : List ℕ) : Type 0 where
    pub sized : length r.entries ≡ ring_size
    pub ends : r.tail ≡ (head + length avail) % 2 ^ 16
    pub fits : length avail ≤ ring_size
    pub window : Window r.entries head avail

  slot_lem :
      (r : BufRing) (head : ℕ) (avail : List ℕ)
      → p.read_count ≡ ring_size
      → Holds r head avail
      → bit_and r.tail (p.read_count - 1) ≡ (head + length avail) % ring_size
  slot_lem r head avail c v =
      ap (λ k. bit_and r.tail (k - 1)) c
      ∙ mask_lem r.tail (omega (arith, v.ends))
      ∙ omega (arith, v.ends)

  read_buf_addr_lem :
      (b : ℕ) → b < p.read_count → read_buf_addr n p b ≡ ok (p.base + b * buf_size n)
  unfolding read_buf_addr
  read_buf_addr_lem b h = rw (lt→ltb b p.read_count h)

  abbrev released : BufRing → ℕ → ℕ → BufRing
  released r slot b = record {
    entries = set r.entries slot (entry_of b);
    tail = (r.tail + 1) % 2 ^ 16;
  }

  release_buf_to_ring_lem :
      (r : BufRing) (b slot : ℕ)
      → bit_and r.tail (p.read_count - 1) ≡ slot
      → b < p.read_count
      → b < 2 ^ 16
      → release_buf_to_ring n p r b ≡ ok (released r slot b)
  unfolding release_buf_to_ring
  release_buf_to_ring_lem r b slot e h k =
      rw (e, read_buf_addr_lem b h, mod-eq_of_lt {n = b} {m = 2 ^ 16} k)

  -- Releasing a read slot while the ring has room puts it at the back of the queue that the kernel
  -- takes from: no entry still to be taken is overwritten, also when the index goes round the ring or
  -- the 16-bit tail wraps.
  pub release-Holds :
      (r : BufRing) (head b : ℕ) (avail : List ℕ)
      → p.read_count ≡ ring_size
      → Holds r head avail
      → length avail < ring_size
      → b < ring_size
      → (r' : BufRing) × (release_buf_to_ring n p r b ≡ ok r') × Holds r' head (avail ++ b ∷ [])
  release-Holds r head b avail c v room h = (
    released r slot b,
    release_buf_to_ring_lem r b slot (slot_lem r head avail c v) (omega arith) (omega arith),
    record {
      sized = length-set r.entries slot (entry_of b) ∙ v.sized;
      ends = omega (arith, v.ends, length-append avail (b ∷ []));
      fits = omega (arith, length-append avail (b ∷ []));
      window =
          Window-append (set r.entries slot (entry_of b)) head avail b
            (Window-set r.entries slot (entry_of b) head avail (λ k l. omega arith) v.window)
            (get_elem?-set_self r.entries slot (entry_of b) (omega (arith, v.sized)));
    },
  )
    where
      slot : ℕ
      slot = (head + length avail) % ring_size

  -- What the kernel takes at its head is the entry of the first slot of the queue, and it leaves the
  -- rest of the queue.
  pub take-Holds :
      (r : BufRing) (head b : ℕ) (avail : List ℕ)
      → Holds r head (b ∷ avail)
      → (get_elem? r.entries (head % ring_size) ≡ some (entry_of b)) × Holds r (head + 1) avail
  take-Holds r head b avail v = (
    v.window.0,
    record {
      sized = v.sized;
      ends = omega (arith, v.ends);
      fits = omega (arith, v.fits);
      window = v.window.1;
    },
  )

  -- The kernel sees the ring as empty, its head at the tail, exactly if the queue is.
  pub head-eq-tail_iff :
      (r : BufRing) (head : ℕ) (avail : List ℕ)
      → Holds r head avail
      → (head % 2 ^ 16 ≡ r.tail) ↔ (length avail ≡ 0)
  head-eq-tail_iff r head avail v = (λ e. omega (arith, v.ends, v.fits), λ e. omega (arith, v.ends))
