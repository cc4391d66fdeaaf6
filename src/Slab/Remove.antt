-- ===== src/Slab/Remove.antt =====
-- `Slab::remove` and `remove_dropped_task` on the map that the slab stands for.
use onlyio.Base.{
  ℕ, ◌+◌, ◌-◌, ◌≡◌, refl, sym, ap, ◌∙◌, true, List, ◌∷◌, none, some, ok, panics, assert_failed,
  arith, get_elem?, set, count, Distinct-cons, length-set, get_elem?-set_self, lt-length,
  if◌then◌else◌, ◌==◌, get_elem?-some,
}
use onlyio.Slab.{Slab, is_task, free_slot, index, remove, remove_dropped_task}
use onlyio.Slab.Chain.{Links-set, is_free-free_slot, count-Links_task}
use onlyio.Slab.Tally.{count_tasks, count_tasks-set}
use onlyio.Slab.Invariant.{WellFormed}
use onlyio.Slab.Map.{entry, entry-set, lookup, lookup-entry}

-- The slab after slot `i` has been given back
abbrev pub given_back : Slab → ℕ → Slab
given_back s i = record s {
  slots = set s.slots i (free_slot s.head);
  head = i;
  task_count = s.task_count - 1;
}

-- What an occupied index says of its slot
entry-some :
    (slots : List ℕ) (i : ℕ) {w : ℕ}
    → entry slots i ≡ some w
    → (get_elem? slots i ≡ some w) × (is_task w ≡ true)
entry-some slots i h = ground arith

module _ (s : Slab) (fs : List ℕ) (i w : ℕ) (wf : WellFormed s fs)
    (held : lookup s i ≡ some w) where
  slot : (get_elem? s.slots i ≡ some w) × (is_task w ≡ true)
  slot = entry-some s.slots i (sym (lookup-entry s i wf.sized) ∙ held)

  tally : count_tasks (set s.slots i (free_slot s.head)) + 1 ≡ count_tasks s.slots
  tally =
      ground (arith, slot, count_tasks-set s.slots i w (free_slot s.head), is_free-free_slot s.head)

  pub given_back-WellFormed : WellFormed (given_back s i) (i ∷ fs)
  given_back-WellFormed = record {
    sized = wf.sized ∙ sym (length-set s.slots i (free_slot s.head));
    small = wf.small;
    starts = refl;
    linked = (
      omega (arith, lt-length s.slots i slot.0, wf.sized),
      get_elem?-set_self s.slots i (free_slot s.head) (lt-length s.slots i slot.0)
          ∙ ap (λ k. some (free_slot k)) wf.starts,
      Links-set s.slots s.len i (free_slot s.head) fs absent wf.linked,
    );
    distinct = Distinct-cons i fs absent wf.distinct;
    tallied = omega (arith, tally, wf.tallied);
    complete = omega (arith, tally, wf.tallied, wf.complete);
  }
    where
      absent : count i fs ≡ 0
      absent = count-Links_task s.slots s.len i w fs slot.0 slot.1 wf.linked

  remove-held : remove s i ≡ ok (w, given_back s i)
  unfolding remove
  remove-held = ground (arith, slot, lt-length s.slots i slot.0, wf.sized, wf.tallied, tally)

  remove_dropped_task-held : remove_dropped_task s i ≡ ok (given_back s i)
  unfolding remove_dropped_task
  remove_dropped_task-held =
      ground (arith, slot, lt-length s.slots i slot.0, wf.sized, wf.tallied, tally)

  lookup-given_back : (j : ℕ) → lookup (given_back s i) j ≡ (if i == j then none else lookup s j)
  lookup-given_back j =
      lookup-entry (given_back s i) j given_back-WellFormed.sized
      ∙ entry-set s.slots i j (free_slot s.head) (lt-length s.slots i slot.0)
      ∙ ground (arith, is_free-free_slot s.head, lookup-entry s j wf.sized)

  given_back-count : (given_back s i).task_count + 1 ≡ s.task_count
  given_back-count = omega (arith, tally, wf.tallied)

-- Removing an occupied index from a well-formed slab returns its task, by `remove` and by
-- `remove_dropped_task` alike leaves a well-formed slab without that entry and with every other one,
-- counts one task less and makes the index the next to be given out.
pub remove-Removes :
    (s : Slab) (fs : List ℕ) (i w : ℕ)
    → WellFormed s fs
    → lookup s i ≡ some w
    → (s' : Slab) × (remove s i ≡ ok (w, s'))
      × (remove_dropped_task s i ≡ ok s')
      × WellFormed s' (i ∷ fs)
      × ((j : ℕ) → lookup s' j ≡ (if i == j then none else lookup s j))
      × (s'.task_count + 1 ≡ s.task_count)
      × (s'.head ≡ i)
remove-Removes s fs i w wf held = (
  given_back s i,
  remove-held s fs i w wf held,
  remove_dropped_task-held s fs i w wf held,
  given_back-WellFormed s fs i w wf held,
  lookup-given_back s fs i w wf held,
  given_back-count s fs i w wf held,
  refl,
)

-- At an index without a task, out of bounds or free, both panic by their assertions.
pub remove-panics :
    (s : Slab) (fs : List ℕ) (i : ℕ)
    → WellFormed s fs
    → lookup s i ≡ none
    → (remove s i ≡ panics assert_failed) × (remove_dropped_task s i ≡ panics assert_failed)
unfolding remove remove_dropped_task index
remove-panics s fs i wf free = (
  ground (arith, wf.sized, get_elem?-some s.slots i),
  ground (arith, wf.sized, get_elem?-some s.slots i),
)
