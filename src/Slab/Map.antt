-- ===== src/Slab/Map.antt =====
-- The slab as a map from indices to tasks: what `index` finds.
use onlyio.Base.{
  ℕ, ◌<◌, ◌≡◌, ◌∙◌, inl, inr, Option-cases, List, Option, none, some, ok, panics, undefined,
  assert_failed, arith, length, get_elem?, set, get_elem?-set_ne, get_elem?-set_self,
  get_elem?-none, get_elem?-some, lt-length, if◌then◌else◌, ◌==◌,
}
use onlyio.Slab.{Slab, is_task, index}
use onlyio.Slab.Tally.{count_tasks, count_tasks-none, none-count_tasks}

-- What a slot holds for a reader
abbrev pub entry : List ℕ → ℕ → Option ℕ
entry slots j = elim (get_elem? slots j) [
  | none ↦ none
  | some w ↦ if is_task w then some w else none
]

abbrev pub lookup : Slab → ℕ → Option ℕ
lookup s j = elim (index s j) [ ok w ↦ some w | panics p ↦ none | undefined ↦ none ]

pub lookup-entry : (s : Slab) (j : ℕ) → s.len ≡ length s.slots → lookup s j ≡ entry s.slots j
unfolding index
lookup-entry s j e = ground (arith, get_elem?-none s.slots j, lt-length s.slots j)

pub entry-set :
    (slots : List ℕ) (i j w : ℕ)
    → i < length slots
    → entry (set slots i w) j
      ≡ (if i == j then (if is_task w then some w else none) else entry slots j)
entry-set slots i j w h =
    ground (arith, get_elem?-set_self slots i w h, get_elem?-set_ne slots i j w)

-- On a slab of the recorded length, `index` and `index_mut` answer with the task of an occupied slot; out of bounds and on a free slot
-- the assertion fails. They are never undefined.
pub index_lem :
    (s : Slab) (j : ℕ)
    → s.len ≡ length s.slots
    → index s j ≡ elim (lookup s j) [ some w ↦ ok w | none ↦ panics assert_failed ]
unfolding index
index_lem s j e =
    ground (arith, get_elem?-none s.slots j, lt-length s.slots j, get_elem?-some s.slots j)

-- What `lookup` finds, `index` answers, and it is in bounds.
pub index_of_lookup : (s : Slab) (j : ℕ) {w : ℕ} → lookup s j ≡ some w → index s j ≡ ok w
index_of_lookup s j h = ground arith

pub lookup-lt : (s : Slab) (j : ℕ) {w : ℕ} → lookup s j ≡ some w → j < s.len
unfolding index
lookup-lt s j h = ground arith

-- No task is counted exactly if no index has one.
pub idle-lookup :
    (s : Slab) (j : ℕ) → s.len ≡ length s.slots → count_tasks s.slots ≡ 0 → lookup s j ≡ none
idle-lookup s j e c = lookup-entry s j e ∙ elim (Option-cases (get_elem? s.slots j)) [
  | inl n ↦ ground (arith, n)
  | inr (w, f) ↦ ground (arith, f, count_tasks-none s.slots j c f)
]

pub lookup-idle :
    (s : Slab) → s.len ≡ length s.slots → ((j : ℕ) → lookup s j ≡ none) → count_tasks s.slots ≡ 0
lookup-idle s e h = none-count_tasks s.slots λ j w f. ground (arith, f, h j, lookup-entry s j e)
