-- ===== src/Slab/Chain.antt =====
-- The free list of a slab: from `head` through the free slots to `len`.
use onlyio.Base.{
  ◌↔◌, Bool-cases, ltb, inl, inr, ltb→lt, ltb_false→le, ℕ, zero, suc, ◌+◌, ◌-◌, ◌^◌, ◌≤◌, ◌<◌, ◌≡◌,
  refl, sym, ap, ◌∙◌, true, false, List, [], ◌∷◌, ◌++◌, some, ok, arith, length, get_elem?, set,
  count, Distinct, get_elem?-set_ne,
}
use onlyio.Slab.{is_free, is_task, next_free, free_slot, write_chain}

-- What a free slot holds is read back, below 2 ^ 31.
pub next_free-free_slot : (n : ℕ) → n < 2 ^ 31 → next_free (free_slot n) ≡ ok n
unfolding next_free free_slot
next_free-free_slot n h = ground arith

-- From 2 ^ 31 on the encoding loses the top bit.
pub next_free-free_slot_large :
    (n : ℕ) → 2 ^ 31 ≤ n → n < 2 ^ 32 → next_free (free_slot n) ≡ ok (n - 2 ^ 31)
unfolding next_free free_slot
next_free-free_slot_large n l h = ground arith

-- The index in a free slot is read back exactly if it is below 2 ^ 31; any other `u32` comes back as
-- another index.
pub next_free-free_slot_iff : (n : ℕ) → n < 2 ^ 32 → (next_free (free_slot n) ≡ ok n) ↔ (n < 2 ^ 31)
next_free-free_slot_iff n h = (
  λ e. elim (Bool-cases (ltb n (2 ^ 31))) [
    | inl b ↦ ltb→lt n (2 ^ 31) b
    | inr b ↦ ground (arith, next_free-free_slot_large n (ltb_false→le n (2 ^ 31) b) h)
  ],
  next_free-free_slot n,
)

pub is_free-free_slot : (n : ℕ) → (is_free (free_slot n) ≡ true) × (is_task (free_slot n) ≡ false)
unfolding is_free is_task free_slot
is_free-free_slot n = (ground arith, ground arith)

-- The first of the free slots, or the end of the slab.
abbrev pub link : ℕ → List ℕ → ℕ
link len [] = len
link len (f ∷ fs) = f

-- Each of the slots is in bounds, and free with the index of the next.
abbrev pub Links : List ℕ → ℕ → List ℕ → Type 0
Links slots len [] = Unit {0}
Links slots len (f ∷ fs) =
    (f < len) × (get_elem? slots f ≡ some (free_slot (link len fs))) × Links slots len fs

pub Links-set :
    (slots : List ℕ) (len i w : ℕ) (fs : List ℕ)
    → count i fs ≡ 0
    → Links slots len fs
    → Links (set slots i w) len fs
Links-set slots len i w [] c l = tt
Links-set slots len i w (f ∷ fs) c (b, e, l) =
    (b, get_elem?-set_ne slots i f w (ground arith) ∙ e, Links-set slots len i w fs (omega arith) l)

pub count-Links_task :
    (slots : List ℕ) (len i w : ℕ) (fs : List ℕ)
    → get_elem? slots i ≡ some w
    → is_task w ≡ true
    → Links slots len fs
    → count i fs ≡ 0
count-Links_task slots len i w [] e t l = refl
count-Links_task slots len i w (f ∷ fs) e t (b, e', l) =
    ground (arith, count-Links_task slots len i w fs e t l, is_free-free_slot (link len fs))

abbrev pub range_from : ℕ → ℕ → List ℕ
range_from zero i = []
range_from (suc n) i = i ∷ range_from n (i + 1)

count-range_from_below : (n i a : ℕ) → a < i → count a (range_from n i) ≡ 0
count-range_from_below zero i a h = refl
count-range_from_below (suc n) i a h = ground (arith, count-range_from_below n (i + 1) a)

pub range_from-Distinct : (n i : ℕ) → Distinct (range_from n i)
range_from-Distinct zero i a = omega arith
range_from-Distinct (suc n) i a =
    ground (arith, count-range_from_below n (i + 1) a, range_from-Distinct n (i + 1) a)

pub length-range_from : (n i : ℕ) → length (range_from n i) ≡ n
length-range_from zero i = refl
length-range_from (suc n) i = ap suc (length-range_from n (i + 1))

link-range_from : (n i len : ℕ) → i + n ≡ len → link len (range_from n i) ≡ i
link-range_from zero i len e = omega arith
link-range_from (suc n) i len e = refl

pub Links-range_from :
    (slots : List ℕ) (n i len : ℕ)
    → i + n ≡ len
    → ((j : ℕ) → i ≤ j → j < len → get_elem? slots j ≡ some (free_slot (j + 1)))
    → Links slots len (range_from n i)
Links-range_from slots zero i len e h = tt
Links-range_from slots (suc n) i len e h = (
  omega arith,
  h i (omega arith) (omega arith)
      ∙ ap (λ k. some (free_slot k)) (sym (link-range_from n (i + 1) len (omega arith))),
  Links-range_from slots n (i + 1) len (omega arith) (λ j l b. h j (omega arith) b),
)

-- The slots that `with_capacity` and `growth` write: each is free with the next index.
pub get_elem?-write_chain :
    (n start j : ℕ)
    → j ≤ n
    → get_elem? (write_chain n start ++ free_slot (start + n + 1) ∷ []) j
      ≡ some (free_slot (start + j + 1))
unfolding write_chain
get_elem?-write_chain zero start zero h = refl
get_elem?-write_chain zero start (suc j) h = absurd (omega arith)
get_elem?-write_chain (suc n) start zero h = ap (λ k. some (free_slot k)) (omega arith)
get_elem?-write_chain (suc n) start (suc j) h =
    ground (arith, get_elem?-write_chain n (start + 1) j)

pub length-write_chain : (n start w : ℕ) → length (write_chain n start ++ w ∷ []) ≡ n + 1
unfolding write_chain
length-write_chain zero start w = refl
length-write_chain (suc n) start w = omega (arith, length-write_chain n (start + 1) w)
