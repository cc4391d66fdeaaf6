-- ===== src/BufPool/Bytes/Slots.antt =====
-- What is written through the slice of one slot, and what the slices of the others show.
use onlyio.Base.{
  ℕ, zero, suc, ◌+◌, ◌*◌, ◌≤◌, ◌<◌, ◌≡◌, ◌≢◌, refl, sym, ap, ap₂, ◌∙◌, ◌⊎◌, inl, inr, List, [], ◌∷◌,
  ok, arith, ltb, ltb→lt, ltb_false→le, lt→ltb, false, Bool-cases, length,
}
use onlyio.BufPool.{BufPool, WBuffer, RwBuffer, buf_size, checkout_read}
use onlyio.BufPool.Addresses.{slot_end}
use onlyio.BufPool.Bytes.{
  Slice, Memory, read_slice, write_slice, deref_mut, bytes_from, with_bytes, load, copy_from_slice,
}

with_bytes-outside :
    (byte : ℕ → ℕ) (ptr : ℕ) (bs : List ℕ) (a : ℕ)
    → (a < ptr) ⊎ (ptr + length bs ≤ a)
    → with_bytes byte ptr bs a ≡ byte a
with_bytes-outside byte ptr [] a h = refl
with_bytes-outside byte ptr (b ∷ bs) a h =
    ground (arith, h, with_bytes-outside byte (ptr + 1) bs a (later h))
  where
    later : (a < ptr) ⊎ (ptr + length (b ∷ bs) ≤ a) → (a < ptr + 1) ⊎ (ptr + 1 + length bs ≤ a)
    later (inl l) = inl (omega (arith, l))
    later (inr l) = inr (omega (arith, l))

bytes_from-ext :
    (f g : ℕ → ℕ) (ptr k : ℕ)
    → ((a : ℕ) → ptr ≤ a → a < ptr + k → f a ≡ g a)
    → bytes_from f ptr k ≡ bytes_from g ptr k
bytes_from-ext f g ptr zero h = refl
bytes_from-ext f g ptr (suc k) h =
    ap₂ (λ b bs. b ∷ bs) (h ptr (omega arith) (omega arith))
      (bytes_from-ext f g (ptr + 1) k λ a l u. h a (omega arith) (omega arith))

bytes_from-with_bytes :
    (byte : ℕ → ℕ) (ptr : ℕ) (bs : List ℕ)
    → bytes_from (with_bytes byte ptr bs) ptr (length bs) ≡ bs
bytes_from-with_bytes byte ptr [] = refl
bytes_from-with_bytes byte ptr (b ∷ bs) =
    ap₂ (λ c cs. c ∷ cs) (ground arith)
      (bytes_from-ext (with_bytes byte ptr (b ∷ bs)) (with_bytes byte (ptr + 1) bs) (ptr + 1)
          (length bs) (λ a l u. ground arith)
        ∙ bytes_from-with_bytes byte (ptr + 1) bs)

-- The memory that the pool allocated, with slots of `n` pages
pub record Allocated (n : ℕ) (p : BufPool) (m : Memory) : Type 0 where
  pub starts : m.base ≡ p.base
  pub sized : m.size ≡ (p.read_count + length p.write_rc) * buf_size n

-- The slice of the first `len` bytes of a slot
abbrev pub slot_slice : ℕ → BufPool → ℕ → ℕ → Slice
slot_slice n p i len = record { ptr = p.base + i * buf_size n; len = len }

module _ (n : ℕ) (p : BufPool) (m : Memory) (al : Allocated n p m) where
  slot_inside :
      (i len : ℕ)
      → i < p.read_count + length p.write_rc
      → len ≤ buf_size n
      → p.base + i * buf_size n + len ≤ m.base + m.size
  slot_inside i len h l =
      omega (
        arith,
        al.starts,
        al.sized,
        l,
        slot_end i (p.read_count + length p.write_rc) (buf_size n) h,
      )

  load-slot :
      (byte : ℕ → ℕ) (i len : ℕ)
      → i < p.read_count + length p.write_rc
      → len ≤ buf_size n
      → load (record m { byte = byte }) (slot_slice n p i len)
        ≡ ok (bytes_from byte (p.base + i * buf_size n) len)
  load-slot byte i len h l = ground (arith, slot_inside i len h l, al.starts)

  copy-slot :
      (i : ℕ) (bs : List ℕ)
      → i < p.read_count + length p.write_rc
      → length bs ≤ buf_size n
      → copy_from_slice m (slot_slice n p i (buf_size n)) bs
        ≡ ok (record m { byte = with_bytes m.byte (p.base + i * buf_size n) bs })
  copy-slot i bs h l = ground (arith, slot_inside i (length bs) h l, al.starts)

  -- The bytes of a slot are outside those of another.
  apart :
      (i j len a : ℕ)
      → i ≢ j
      → len ≤ buf_size n
      → p.base + j * buf_size n ≤ a
      → a < p.base + j * buf_size n + buf_size n
      → (a < p.base + i * buf_size n) ⊎ (p.base + i * buf_size n + len ≤ a)
  apart i j len a ne l lo hi = elim (Bool-cases (ltb i j)) [
    | inl b ↦ inr (omega (arith, l, lo, slot_end i j (buf_size n) (ltb→lt i j b)))
    | inr b ↦
        inl (omega (arith, hi, slot_end j i (buf_size n) (omega (arith, ne, ltb_false→le i j b))))
  ]

  -- Bytes that fit into slot `i` can be copied to the start of its slice. Then the first bytes of that
  -- slot are they, and the slice of every other slot, whole or a part from its start, shows what it did
  -- before. No access is outside the allocation.
  copy-Writes :
      (i j len : ℕ) (bs : List ℕ)
      → i < p.read_count + length p.write_rc
      → j < p.read_count + length p.write_rc
      → i ≢ j
      → length bs ≤ buf_size n
      → len ≤ buf_size n
      → (m' : Memory) × (copy_from_slice m (slot_slice n p i (buf_size n)) bs ≡ ok m')
        × (load m' (slot_slice n p i (length bs)) ≡ ok bs)
        × (load m' (slot_slice n p j len) ≡ load m (slot_slice n p j len))
        × Allocated n p m'
  copy-Writes i j len bs hi hj ne fits l = (
    record m { byte = with_bytes m.byte (p.base + i * buf_size n) bs },
    copy-slot i bs hi fits,
    load-slot (with_bytes m.byte (p.base + i * buf_size n) bs) i (length bs) hi fits
        ∙ ap ok (bytes_from-with_bytes m.byte (p.base + i * buf_size n) bs),
    load-slot (with_bytes m.byte (p.base + i * buf_size n) bs) j len hj l
        ∙ ap ok (
            bytes_from-ext (with_bytes m.byte (p.base + i * buf_size n) bs) m.byte
              (p.base + j * buf_size n) len
              λ a lo up.
                with_bytes-outside m.byte (p.base + i * buf_size n) bs a
                  (apart i j (length bs) a ne fits lo (omega (arith, up, l))))
        ∙ sym (load-slot m.byte j len hj l),
    record { starts = al.starts; sized = al.sized },
  )

  -- A read slot that is checked out with at most a slot's number of bytes, and a write handle on its
  -- slot, do not disturb each other. The slices to write to are the whole slots, and the slice to read is
  -- the received bytes of its slot; they lie inside the allocation, the read slot's before the write
  -- slot's. What is copied to the start of the slice of the one, if it fits, is found at the slot's
  -- address, and the other's slice shows what it did before: the bytes of the memory there.
  pub handles-Apart :
      (buf_idx fd bytes : ℕ) (w : WBuffer) (bs : List ℕ)
      → buf_idx < p.read_count
      → bytes ≤ buf_size n
      → w.ptr ≡ p.base + w.abs_idx * buf_size n
      → p.read_count ≤ w.abs_idx
      → w.abs_idx < p.read_count + length p.write_rc
      → length bs ≤ buf_size n
      → (b : RwBuffer) × (m₁ : Memory) × (m₂ : Memory) × (checkout_read n p buf_idx fd bytes ≡ ok b)
        × (write_slice n b ≡ slot_slice n p buf_idx (buf_size n))
        × (read_slice b ≡ slot_slice n p buf_idx bytes)
        × (deref_mut n w ≡ slot_slice n p w.abs_idx (buf_size n))
        × (m.base ≤ (write_slice n b).ptr)
        × ((write_slice n b).ptr + (write_slice n b).len ≤ (deref_mut n w).ptr)
        × ((deref_mut n w).ptr + (deref_mut n w).len ≤ m.base + m.size)
        × (load m (deref_mut n w) ≡ ok (bytes_from m.byte w.ptr (buf_size n)))
        × (load m (read_slice b) ≡ ok (bytes_from m.byte b.ptr bytes))
        × (copy_from_slice m (write_slice n b) bs ≡ ok m₁)
        × (load m₁ (record { ptr = b.ptr; len = length bs }) ≡ ok bs)
        × (load m₁ (deref_mut n w) ≡ load m (deref_mut n w))
        × (copy_from_slice m (deref_mut n w) bs ≡ ok m₂)
        × (load m₂ (record { ptr = w.ptr; len = length bs }) ≡ ok bs)
        × (load m₂ (read_slice b) ≡ load m (read_slice b))
  unfolding checkout_read write_slice deref_mut read_slice
  handles-Apart buf_idx fd bytes w bs hb short at lo hi fits =
      let one =
        copy-Writes buf_idx w.abs_idx (buf_size n) bs (omega (arith, hb)) hi (omega (arith, hb, lo))
          fits (omega arith) in
      let two =
        copy-Writes w.abs_idx buf_idx bytes bs hi (omega (arith, hb)) (omega (arith, hb, lo)) fits
          short in
      (
        record {
          ptr = p.base + buf_idx * buf_size n;
          buf_idx = buf_idx;
          fd_idx = fd;
          bytes = bytes;
          committed = false;
        },
        one.0,
        two.0,
        rw (lt→ltb buf_idx p.read_count hb),
        refl,
        refl,
        ap (λ a. record { ptr = a; len = buf_size n }) at,
        omega (arith, al.starts),
        omega (arith, at, slot_end buf_idx w.abs_idx (buf_size n) (omega (arith, hb, lo))),
        omega (arith, at, slot_inside w.abs_idx (buf_size n) hi (omega arith)),
        ap (λ a. load m (record { ptr = a; len = buf_size n })) at
            ∙ load-slot m.byte w.abs_idx (buf_size n) hi (omega arith)
            ∙ ap (λ a. ok (bytes_from m.byte a (buf_size n))) (sym at),
        load-slot m.byte buf_idx bytes (omega (arith, hb)) short,
        one.1,
        one.2,
        ap (λ a. load one.0 (record { ptr = a; len = buf_size n })) at
            ∙ one.3
            ∙ sym (ap (λ a. load m (record { ptr = a; len = buf_size n })) at),
        ap (λ a. copy_from_slice m (record { ptr = a; len = buf_size n }) bs) at ∙ two.1,
        ap (λ a. load two.0 (record { ptr = a; len = length bs })) at ∙ two.2,
        two.3,
      )
