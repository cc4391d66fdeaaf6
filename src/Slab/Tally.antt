-- ===== src/Slab/Tally.antt =====
-- How many slots hold a task.
use onlyio.Base.{
  ℕ, zero, suc, ◌+◌, ◌≤◌, ◌≡◌, Bool, false, List, [], ◌∷◌, ◌++◌, some, arith, length, get_elem?,
  set, if◌then◌else◌,
}
use onlyio.Slab.{is_task, free_slot, write_chain}
use onlyio.Slab.Chain.{is_free-free_slot}

abbrev pub one_if : Bool → ℕ
one_if b = if b then 1 else 0

abbrev pub count_tasks : List ℕ → ℕ
count_tasks [] = 0
count_tasks (w ∷ ws) = one_if (is_task w) + count_tasks ws

pub count_tasks-le : (ws : List ℕ) → count_tasks ws ≤ length ws
count_tasks-le [] = omega arith
count_tasks-le (w ∷ ws) = ground (arith, count_tasks-le ws)

pub count_tasks-set :
    (ws : List ℕ) (i v w : ℕ)
    → get_elem? ws i ≡ some v
    → count_tasks (set ws i w) + one_if (is_task v) ≡ count_tasks ws + one_if (is_task w)
count_tasks-set [] i v w e = absurd (cc)
count_tasks-set (x ∷ ws) zero v w e = ground arith
count_tasks-set (x ∷ ws) (suc i) v w e = omega (arith, count_tasks-set ws i v w e)

pub count_tasks-append : (vs ws : List ℕ) → count_tasks (vs ++ ws) ≡ count_tasks vs + count_tasks ws
count_tasks-append [] ws = omega arith
count_tasks-append (v ∷ vs) ws = omega (arith, count_tasks-append vs ws)

pub count_tasks-write_chain :
    (n start k : ℕ) → count_tasks (write_chain n start ++ free_slot k ∷ []) ≡ 0
unfolding write_chain
count_tasks-write_chain zero start k = ground (arith, is_free-free_slot k)
count_tasks-write_chain (suc n) start k =
    ground (arith, is_free-free_slot (start + 1), count_tasks-write_chain n (start + 1) k)

-- No slot is that of a task exactly if none is counted.
pub count_tasks-none :
    (ws : List ℕ) (i : ℕ) {w : ℕ} → count_tasks ws ≡ 0 → get_elem? ws i ≡ some w → is_task w ≡ false
count_tasks-none [] i c e = absurd (cc)
count_tasks-none (x ∷ ws) zero c e = ground arith
count_tasks-none (x ∷ ws) (suc i) c e = count_tasks-none ws i (omega (arith, c)) e

pub none-count_tasks :
    (ws : List ℕ) → ((i w : ℕ) → get_elem? ws i ≡ some w → is_task w ≡ false) → count_tasks ws ≡ 0
none-count_tasks [] h = ground arith
none-count_tasks (x ∷ ws) h = ground (arith, h 0 x, none-count_tasks ws λ i w e. h (suc i) w e)
