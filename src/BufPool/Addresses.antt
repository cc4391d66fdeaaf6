-- ===== src/BufPool/Addresses.antt =====
-- Where the slots lie in memory, and which registered buffer a write names.
use onlyio.Base.{
  refl, ok, undefined, ℕ, zero, suc, ◌+◌, ◌*◌, ◌≤◌, ◌<◌, ◌^◌, ◌≡◌, sym, ap, Bool-cases, inl, inr,
  ltb, ltb→lt, ltb_false→le, ◌∙◌, ◌≢◌, ◌⊎◌, List, [], ◌∷◌, some, arith, length, get_elem?, map,
}
use native.Mathlib.Nat.{zero-add, mod-eq_of_lt}
use onlyio.BufPool.{BufPool, WBuffer, Iovec, range, buf_size, build_iovecs, write_buf_ptr, index}

pub get_elem?-range : (k i j : ℕ) → j < k → get_elem? (range k i) j ≡ some (i + j)
get_elem?-range zero i j h = absurd (omega arith)
get_elem?-range (suc k) i zero h = ap some (omega arith)
get_elem?-range (suc k) i (suc j) h =
    get_elem?-range k (i + 1) j (omega arith) ∙ ap some (omega arith)

pub get_elem?-map :
    {A B : Type 0} (f : A → B) (xs : List A) (i : ℕ) {a : A}
    → get_elem? xs i ≡ some a
    → get_elem? (map f xs) i ≡ some (f a)
get_elem?-map f [] i e = absurd (cc)
get_elem?-map f (x ∷ xs) zero e = ground arith
get_elem?-map f (x ∷ xs) (suc i) e = get_elem?-map f xs i e

-- `register_buffers` gets one entry for each slot, read and write: the slot's own memory, so that no
-- two entries overlap.
pub build_iovecs_lem :
    (n : ℕ) (p : BufPool) (i : ℕ)
    → i < p.read_count + length p.write_rc
    → get_elem? (build_iovecs n p) i
      ≡ some (record { iov_base = p.base + i * buf_size n; iov_len = buf_size n })
unfolding build_iovecs
build_iovecs_lem n p i h =
    get_elem?-map (λ i. record { iov_base = p.base + i * buf_size n; iov_len = buf_size n })
      (range (p.read_count + length p.write_rc) 0) i
      (get_elem?-range (p.read_count + length p.write_rc) 0 i h ∙ ap some (zero-add i))

-- The end of a slot is at most the start of a later one.
pub slot_end : (i j b : ℕ) → i < j → i * b + b ≤ j * b
slot_end i j b h = grind arith

iovec_at :
    (n : ℕ) (p : BufPool) (i : ℕ) {a : Iovec}
    → i < p.read_count + length p.write_rc
    → get_elem? (build_iovecs n p) i ≡ some a
    → (a.iov_base ≡ p.base + i * buf_size n) × (a.iov_len ≡ buf_size n)
iovec_at n p i h e = ground (arith, build_iovecs_lem n p i h)

-- Two different registered buffers do not overlap, and each lies inside the allocation.
pub iovecs-Disjoint :
    (n : ℕ) (p : BufPool) (i j : ℕ) {a b : Iovec}
    → i ≢ j
    → i < p.read_count + length p.write_rc
    → j < p.read_count + length p.write_rc
    → get_elem? (build_iovecs n p) i ≡ some a
    → get_elem? (build_iovecs n p) j ≡ some b
    → ((a.iov_base + a.iov_len ≤ b.iov_base) ⊎ (b.iov_base + b.iov_len ≤ a.iov_base))
      × (p.base ≤ a.iov_base)
      × (a.iov_base + a.iov_len ≤ p.base + (p.read_count + length p.write_rc) * buf_size n)
iovecs-Disjoint n p i j {a} {b} ne hi hj ea eb = (
  elim (Bool-cases (ltb i j)) [
    | inl l ↦ inl (omega (arith, left, right, slot_end i j (buf_size n) (ltb→lt i j l)))
    | inr l ↦
        inr (omega (arith, left, right, slot_end j i (buf_size n) (below (ltb_false→le i j l))))
  ],
  omega (arith, left),
  omega (arith, left, slot_end i (p.read_count + length p.write_rc) (buf_size n) hi),
)
  where
    left : (a.iov_base ≡ p.base + i * buf_size n) × (a.iov_len ≡ buf_size n)
    left = iovec_at n p i hi ea

    right : (b.iov_base ≡ p.base + j * buf_size n) × (b.iov_len ≡ buf_size n)
    right = iovec_at n p j hj eb

    below : j ≤ i → j < i
    below l = omega arith

-- A write entry built from a handle names by `index` the registered buffer that its pointer is the
-- start of, as long as the pool has at most 2 ^ 16 slots.
pub index-Registered :
    (n : ℕ) (p : BufPool) (w : WBuffer)
    → w.ptr ≡ p.base + w.abs_idx * buf_size n
    → w.abs_idx < p.read_count + length p.write_rc
    → p.read_count + length p.write_rc ≤ 2 ^ 16
    → get_elem? (build_iovecs n p) (index w)
      ≡ some (record { iov_base = w.ptr; iov_len = buf_size n })
unfolding index
index-Registered n p w e h k =
    rw (mod-eq_of_lt {n = w.abs_idx} {m = 2 ^ 16} (omega arith)) (build_iovecs_lem n p w.abs_idx h)
    ∙ ap (λ b. some (record { iov_base = b; iov_len = buf_size n })) (sym e)

-- In a pool with read slots, the pointer that `write_buf_ptr` computes from a registered `buf_id` never
-- lies in the registered buffer of that index: it is at or past its end. It computes one for every
-- `buf_id` below the number of the write slots; for any other it leaves its contract, which is
-- undefined behaviour.
pub write_buf_ptr-outside :
    (n : ℕ) (p : BufPool) (buf_id : ℕ) {a : Iovec}
    → 0 < p.read_count
    → buf_id < p.read_count + length p.write_rc
    → get_elem? (build_iovecs n p) buf_id ≡ some a
    → ((ptr : ℕ) × (buf_id < length p.write_rc)
        × (write_buf_ptr n p buf_id ≡ ok ptr)
        × (a.iov_base + a.iov_len ≤ ptr))
      ⊎ ((length p.write_rc ≤ buf_id) × (write_buf_ptr n p buf_id ≡ undefined))
unfolding write_buf_ptr
write_buf_ptr-outside n p buf_id {a} pos h e = elim (Bool-cases (ltb buf_id (length p.write_rc))) [
  | inl l ↦ inl (
    p.base + (p.read_count + buf_id) * buf_size n,
    ltb→lt _ _ l,
    rw l refl,
    omega (
      arith,
      iovec_at n p buf_id h e,
      slot_end buf_id (p.read_count + buf_id) (buf_size n) (omega arith),
    ),
  )
  | inr past ↦ inr (ltb_false→le _ _ past, rw past refl)
]
