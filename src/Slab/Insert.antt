-- ===== src/Slab/Insert.antt =====
-- `Slab::insert` on the map that the slab stands for.
use onlyio.Base.{
  ℕ, suc, ◌+◌, ◌-◌, ◌*◌, ◌^◌, ◌≤◌, ◌<◌, ◌≡◌, ◌≢◌, refl, sym, ap, subst, inl, inr, Bool-cases, ltb,
  get_elem?-none, ◌∙◌, true, List, [], ◌∷◌, Option, none, some, ok, arith, length, get_elem?, set,
  count, Distinct-tail, Distinct-head, length-set, lt-length, if◌then◌else◌, ◌==◌, eq→==, ne→==,
}
use onlyio.Task.{RawTask, set_task_idx}
use onlyio.Task.Store.{Store, write_cell}
use onlyio.Slab.{Slab, is_task, free_slot, growth, insert, u32_max}
use onlyio.Slab.Chain.{link, Links-set, next_free-free_slot, is_free-free_slot, range_from}
use onlyio.Slab.Tally.{count_tasks-set}
use onlyio.Slab.Invariant.{WellFormed, growth-WellFormed}
use onlyio.Slab.Map.{entry, entry-set, lookup, lookup-entry}

-- The slab after a task has taken its first free slot
abbrev pub taken : Slab → ℕ → List ℕ → Slab
taken s task fs = record s {
  slots = set s.slots s.head task;
  head = link s.len fs;
  task_count = s.task_count + 1;
}

head_slot :
    (s : Slab) (f : ℕ) (fs : List ℕ)
    → WellFormed s (f ∷ fs)
    → get_elem? s.slots s.head ≡ some (free_slot (link s.len fs))
head_slot s f fs w = ap (get_elem? s.slots) w.starts ∙ w.linked.1

link-le : (s : Slab) (f : ℕ) (fs : List ℕ) → WellFormed s (f ∷ fs) → link s.len fs < 2 ^ 31
link-le s f [] w = w.small
link-le s f (g ∷ fs) w = omega (arith, w.linked.2.0, w.small)

pub taken-WellFormed :
    (s : Slab) (task f : ℕ) (fs : List ℕ)
    → WellFormed s (f ∷ fs)
    → is_task task ≡ true
    → WellFormed (taken s task fs) fs
taken-WellFormed s task f fs w t = record {
  sized = w.sized ∙ sym (length-set s.slots s.head task);
  small = w.small;
  starts = refl;
  linked =
      Links-set s.slots s.len s.head task fs
        (ap (λ h. count h fs) w.starts ∙ Distinct-head f fs w.distinct) w.linked.2;
  distinct = Distinct-tail f fs w.distinct;
  tallied = ground (
    arith,
    w.tallied,
    count_tasks-set s.slots s.head (free_slot (link s.len fs)) task (head_slot s f fs w),
    is_free-free_slot (link s.len fs),
  );
  complete = omega (arith, w.complete);
}

-- Growing changes no entry.
entry-grown :
    (s s' : Slab)
    → s.len ≡ length s.slots
    → s'.len ≡ length s'.slots
    → s'.len ≡ s.len * 2
    → ((i : ℕ) → i < s.len → get_elem? s'.slots i ≡ get_elem? s.slots i)
    → ((i : ℕ) → s.len ≤ i → i < s.len * 2 → get_elem? s'.slots i ≡ some (free_slot (i + 1)))
    → (j : ℕ) → entry s'.slots j ≡ entry s.slots j
entry-grown s s' z z' l old new j = elim (Bool-cases (ltb j s.len)) [
  | inl b ↦ ground (arith, old j)
  | inr b ↦
      ground (
        arith,
        new j,
        is_free-free_slot (j + 1),
        get_elem?-none s.slots j,
        get_elem?-none s'.slots j,
      )
]

module _ {F : Type 0} where
  insert-free :
      (task : ℕ) (s : Slab) (store : Store F) (t : RawTask F) (f : ℕ) (fs : List ℕ)
      → WellFormed s (f ∷ fs)
      → store.cells task ≡ some t
      → insert task s store
        ≡ ok (s.head, taken s task fs, write_cell store task (some (set_task_idx t s.head)))
  unfolding insert
  insert-free task s store t f fs w e = rw (
    ne→== s.head s.len (omega (arith, w.starts, w.linked.0)),
    head_slot s f fs w,
    e,
    next_free-free_slot (link s.len fs) (link-le s f fs w),
    ne→== s.task_count u32_max (omega (arith, w.complete, w.small)),
  )

  insert-grow :
      (task : ℕ) (s s' : Slab) (store : Store F)
      → s.head ≡ s.len
      → growth s ≡ ok s'
      → s'.head ≢ s'.len
      → insert task s store ≡ insert task s' store
  unfolding insert
  insert-grow task s s' store h g n = rw (eq→== s.head s.len h, g, ne→== s'.head s'.len n)

  -- What `insert` makes of a slab: the new index, the new slab and its free list
  abbrev Inserts : ℕ → Slab → Store F → RawTask F → Type 0
  Inserts task s store t =
      (i : ℕ) × (s' : Slab) × (fs' : List ℕ) × (insert task s store
        ≡ ok (i, s', write_cell store task (some (set_task_idx t i))))
      × WellFormed s' fs'
      × (lookup s i ≡ none)
      × ((j : ℕ) → lookup s' j ≡ (if i == j then some task else lookup s j))
      × (s'.task_count ≡ s.task_count + 1)

  insert-free-Inserts :
      (task : ℕ) (s : Slab) (store : Store F) (t : RawTask F) (f : ℕ) (fs : List ℕ)
      → WellFormed s (f ∷ fs)
      → is_task task ≡ true
      → store.cells task ≡ some t
      → Inserts task s store t
  insert-free-Inserts task s store t f fs w even e = (
    s.head,
    taken s task fs,
    fs,
    insert-free task s store t f fs w e,
    new,
    lookup-entry s s.head w.sized
        ∙ ground (arith, head_slot s f fs w, is_free-free_slot (link s.len fs)),
    λ j.
        lookup-entry (taken s task fs) j new.sized
        ∙ entry-set s.slots s.head j task (lt-length s.slots s.head (head_slot s f fs w))
        ∙ ground (arith, even, lookup-entry s j w.sized),
    refl,
  )
    where
      new : WellFormed (taken s task fs) fs
      new = taken-WellFormed s task f fs w even

  insert-full-Inserts :
      (task : ℕ) (s : Slab) (store : Store F) (t : RawTask F) (m : ℕ)
      → WellFormed s []
      → is_task task ≡ true
      → s.len ≡ suc m
      → s.len * 2 < 2 ^ 31
      → store.cells task ≡ some t
      → Inserts task s store t
  insert-full-Inserts task s store t m w even l small e =
      after (growth-WellFormed s w (omega arith) small)
    where
      after :
          ((s' : Slab) × (growth s ≡ ok s')
            × WellFormed s' (range_from s.len s.len)
            × (s'.len ≡ s.len * 2)
            × (s'.task_count ≡ s.task_count)
            × ((i : ℕ) → i < s.len → get_elem? s'.slots i ≡ get_elem? s.slots i)
            × ((i : ℕ)
                → s.len ≤ i
                → i < s.len * 2
                → get_elem? s'.slots i ≡ some (free_slot (i + 1))))
          → Inserts task s store t
      after (s', g, w', l', c', old, new) = (
        grown.0,
        grown.1,
        grown.2,
        insert-grow task s s' store w.starts g (omega (arith, w1.starts, l')) ∙ grown.3,
        grown.4,
        sym (same grown.0) ∙ grown.5,
        λ j. grown.6 j ∙ ap (λ (o : Option ℕ). if grown.0 == j then some task else o) (same j),
        grown.7 ∙ ap (λ n. n + 1) c',
      )
        where
          w1 : WellFormed s' (s.len ∷ range_from m (s.len + 1))
          w1 = subst (λ k. WellFormed s' (range_from k s.len)) l w'

          grown : Inserts task s' store t
          grown = insert-free-Inserts task s' store t s.len (range_from m (s.len + 1)) w1 even e

          same : (j : ℕ) → lookup s' j ≡ lookup s j
          same j =
              lookup-entry s' j w'.sized
              ∙ entry-grown s s' w.sized w'.sized l' old new j
              ∙ sym (lookup-entry s j w.sized)

  -- Inserting a live task at an even address into a well-formed slab of one slot or more returns an index that was not
  -- occupied, records it in the task, and leaves a well-formed slab that holds the task there and
  -- at every other index what it held before; also when the slab is full and grows, if that keeps
  -- it below 2 ^ 31 slots.
  pub insert-Inserts :
      (task : ℕ) (s : Slab) (store : Store F) (t : RawTask F) (fs : List ℕ)
      → WellFormed s fs
      → 0 < s.len
      → (s.task_count ≡ s.len → s.len * 2 < 2 ^ 31)
      → is_task task ≡ true
      → store.cells task ≡ some t
      → (i : ℕ) × (s' : Slab) × (fs' : List ℕ) × (insert task s store
          ≡ ok (i, s', write_cell store task (some (set_task_idx t i))))
        × WellFormed s' fs'
        × (lookup s i ≡ none)
        × ((j : ℕ) → lookup s' j ≡ (if i == j then some task else lookup s j))
        × (s'.task_count ≡ s.task_count + 1)
  insert-Inserts task s store t [] w p small even e =
      insert-full-Inserts task s store t (s.len - 1) w even (omega arith)
        (small (omega (arith, w.complete))) e
  insert-Inserts task s store t (f ∷ fs) w p small even e =
      insert-free-Inserts task s store t f fs w even e
