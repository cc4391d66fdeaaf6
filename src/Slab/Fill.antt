-- ===== src/Slab/Fill.antt =====
-- Slots that are all free in order, behind those of an older slab.
use onlyio.Base.{
  ℕ, suc, ◌+◌, ◌-◌, ◌≤◌, ◌<◌, ◌≡◌, ap, ◌∙◌, List, [], ◌∷◌, ◌++◌, some, arith, length, get_elem?,
  get_elem?-append_left, get_elem?-append_right, length-append,
}
use onlyio.Slab.{free_slot, write_chain}
use onlyio.Slab.Chain.{
  Links, link, range_from, Links-range_from, get_elem?-write_chain, length-write_chain,
}
use onlyio.Slab.Tally.{count_tasks, count_tasks-append, count_tasks-write_chain}

-- `n` slots and a last one, that leads to the end of the slab
module _ (ws : List ℕ) (start n last : ℕ) (here : length ws ≡ start)
    (ends : start + n + 1 ≡ last) where
  abbrev pub filled : List ℕ
  filled = ws ++ (write_chain n start ++ free_slot last ∷ [])

  pub length-filled : length filled ≡ last
  length-filled = omega (
    arith,
    length-append ws (write_chain n start ++ free_slot last ∷ []),
    length-write_chain n start (free_slot last),
  )

  pub get_elem?-filled_old : (j : ℕ) → j < start → get_elem? filled j ≡ get_elem? ws j
  get_elem?-filled_old j h = get_elem?-append_left ws _ j (omega arith)

  fresh_at : (k : ℕ) → k ≤ n → get_elem? filled (length ws + k) ≡ some (free_slot (start + k + 1))
  fresh_at k h =
      get_elem?-append_right ws _ k
      ∙ ap (λ m. get_elem? (write_chain n start ++ free_slot m ∷ []) k) (omega arith)
      ∙ get_elem?-write_chain n start k h

  pub get_elem?-filled_new :
      (j : ℕ) → start ≤ j → j < last → get_elem? filled j ≡ some (free_slot (j + 1))
  get_elem?-filled_new j l h =
      ap (get_elem? filled) (omega arith)
      ∙ fresh_at (j - start) (omega arith)
      ∙ ap (λ m. some (free_slot m)) (omega arith)

  pub count_tasks-filled : count_tasks filled ≡ count_tasks ws
  count_tasks-filled = omega (
    arith,
    count_tasks-append ws (write_chain n start ++ free_slot last ∷ []),
    count_tasks-write_chain n start last,
  )

  pub Links-filled : (k : ℕ) → k ≡ suc n → Links filled last (range_from k start)
  Links-filled k e = Links-range_from filled k start last (omega arith) get_elem?-filled_new

pub link-range_from_pos : (k start last : ℕ) → 0 < k → link last (range_from k start) ≡ start
link-range_from_pos k start last h = let e : k ≡ suc (k - 1) = omega arith in rw e
