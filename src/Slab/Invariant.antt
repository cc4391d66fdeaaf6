-- ===== src/Slab/Invariant.antt =====
-- The invariant of the slab and the operations that keep it.
use onlyio.Base.{
  ℕ, ◌+◌, ◌-◌, ◌*◌, ◌^◌, ◌≤◌, ◌<◌, ◌≡◌, refl, sym, ◌∙◌, List, [], ◌∷◌, ◌++◌, some, ok, arith,
  length, get_elem?, Distinct, ne→==, lt→ltb,
}
use onlyio.Slab.{Slab, free_slot, write_chain, with_capacity, growth, u32_max}
use onlyio.Slab.Chain.{Links, link, range_from, range_from-Distinct, length-range_from}
use onlyio.Slab.Fill.{
  link-range_from_pos, filled, length-filled, get_elem?-filled_old, get_elem?-filled_new,
  count_tasks-filled, Links-filled,
}
use onlyio.Slab.Tally.{count_tasks}

-- The free list `fs` runs from `head` through all the free slots to `len`, with no slot twice; the
-- other slots are the `task_count` tasks. Indices stay below 2 ^ 31, where the encoding is exact.
pub record WellFormed (s : Slab) (fs : List ℕ) : Type 0 where
  pub sized : s.len ≡ length s.slots
  pub small : s.len < 2 ^ 31
  pub starts : s.head ≡ link s.len fs
  pub linked : Links s.slots s.len fs
  pub distinct : Distinct fs
  pub tallied : s.task_count ≡ count_tasks s.slots
  pub complete : length fs + s.task_count ≡ s.len

growth-small :
    (s : Slab)
    → s.len * 2 < 2 ^ 31
    → growth s
      ≡ ok (record s {
        slots =
            s.slots ++ (write_chain (s.len * 2 - 1 - s.len) s.len ++ free_slot (s.len * 2) ∷ []);
        len = s.len * 2;
      })
unfolding growth
growth-small s h = rw (ne→== s.len u32_max (omega arith), lt→ltb (s.len * 2) (2 ^ 32) (omega arith))

-- A new slab of any capacity that the assertion admits is well formed, with every slot free in
-- order.
pub with_capacity-WellFormed :
    (capacity : ℕ)
    → 0 < capacity
    → capacity < 2 ^ 31
    → (s : Slab) × (with_capacity capacity ≡ ok s)
      × WellFormed s (range_from capacity 0)
      × (s.len ≡ capacity)
      × (s.task_count ≡ 0)
unfolding with_capacity
with_capacity-WellFormed capacity p h = (new, ground arith, new-WellFormed, refl, refl)
  where
    new : Slab
    new = record {
      slots = filled [] 0 (capacity - 1) capacity refl (omega arith);
      head = 0;
      len = capacity;
      task_count = 0;
    }

    new-WellFormed : WellFormed new (range_from capacity 0)
    new-WellFormed = record {
      sized = sym (length-filled [] 0 (capacity - 1) capacity refl (omega arith));
      small = h;
      starts = sym (link-range_from_pos capacity 0 capacity p);
      linked = Links-filled [] 0 (capacity - 1) capacity refl (omega arith) capacity (omega arith);
      distinct = range_from-Distinct capacity 0;
      tallied = sym (count_tasks-filled [] 0 (capacity - 1) capacity refl (omega arith));
      complete = omega (arith, length-range_from capacity 0);
    }

-- Growing a full slab that stays below 2 ^ 31 slots keeps it well formed: the new slots are free in
-- order, `head`, which was the old length, is the first of them, and the old slots are unchanged.
pub growth-WellFormed :
    (s : Slab)
    → WellFormed s []
    → 0 < s.len
    → s.len * 2 < 2 ^ 31
    → (s' : Slab) × (growth s ≡ ok s')
      × WellFormed s' (range_from s.len s.len)
      × (s'.len ≡ s.len * 2)
      × (s'.task_count ≡ s.task_count)
      × ((i : ℕ) → i < s.len → get_elem? s'.slots i ≡ get_elem? s.slots i)
      × ((i : ℕ) → s.len ≤ i → i < s.len * 2 → get_elem? s'.slots i ≡ some (free_slot (i + 1)))
growth-WellFormed s w p h = (
  grown,
  growth_lem,
  grown-WellFormed,
  refl,
  refl,
  get_elem?-filled_old s.slots s.len (s.len * 2 - 1 - s.len) (s.len * 2) (sym w.sized)
      (omega arith),
  get_elem?-filled_new s.slots s.len (s.len * 2 - 1 - s.len) (s.len * 2) (sym w.sized)
      (omega arith),
)
  where
    grown : Slab
    grown = record s {
      slots = filled s.slots s.len (s.len * 2 - 1 - s.len) (s.len * 2) (sym w.sized) (omega arith);
      len = s.len * 2;
    }

    growth_lem : growth s ≡ ok grown
    growth_lem = growth-small s h

    grown-WellFormed : WellFormed grown (range_from s.len s.len)
    grown-WellFormed = record {
      sized = sym (
          length-filled s.slots s.len (s.len * 2 - 1 - s.len) (s.len * 2) (sym w.sized)
            (omega arith));
      small = h;
      starts = w.starts ∙ sym (link-range_from_pos s.len s.len (s.len * 2) p);
      linked =
          Links-filled s.slots s.len (s.len * 2 - 1 - s.len) (s.len * 2) (sym w.sized) (omega arith)
            s.len (omega arith);
      distinct = range_from-Distinct s.len s.len;
      tallied =
          w.tallied
          ∙ sym (
              count_tasks-filled s.slots s.len (s.len * 2 - 1 - s.len) (s.len * 2) (sym w.sized)
                (omega arith));
      complete = omega (arith, length-range_from s.len s.len, w.complete);
    }
