-- ===== src/Tests/Slabs.antt =====
-- A slab of four slots.
use onlyio.Base.{
  ℕ, ◌+◌, ◌^◌, ◌<◌, ◌≡◌, ◌↔◌, refl, true, List, [], ◌∷◌, none, some, ok, arith, if◌then◌else◌, ◌==◌,
}
use onlyio.Task.{set_task_idx}
use onlyio.Task.Store.{write_cell}
use onlyio.Slab.{Slab, is_task, next_free, free_slot, index, insert, remove, remove_dropped_task}
use onlyio.Slab.Chain.{next_free-free_slot_iff}
use onlyio.Slab.Invariant.{WellFormed}
use onlyio.Slab.Map.{lookup}
use onlyio.Slab.Insert.{insert-Inserts}
use onlyio.Slab.Remove.{remove-Removes}
use onlyio.Tests.Tasks.{task, store}

-- Two tasks, in slots 0 and 2; the free list is 1, 3.
abbrev pub slab : Slab
slab = record { slots = 4096 ∷ 7 ∷ 8192 ∷ 9 ∷ []; head = 1; len = 4; task_count = 2 }

pub slab-WellFormed : WellFormed slab (1 ∷ 3 ∷ [])
unfolding free_slot is_task
slab-WellFormed = record {
  sized = refl;
  small = omega arith;
  starts = refl;
  linked = (omega arith, refl, (omega arith, refl, tt));
  distinct = λ a. ground arith;
  tallied = refl;
  complete = refl;
}

next_free-free_slot_iff_example :
    (next_free (free_slot 0x80000000) ≡ ok 0x80000000) ↔ (0x80000000 < 2 ^ 31)
next_free-free_slot_iff_example = next_free-free_slot_iff 0x80000000 (omega arith)

even : is_task 4096 ≡ true
unfolding is_task
even = refl

insert-Inserts_example :
    (i : ℕ) × (s' : Slab) × (fs' : List ℕ) × (insert 4096 slab store
      ≡ ok (i, s', write_cell store 4096 (some (set_task_idx task i))))
    × WellFormed s' fs'
    × (lookup slab i ≡ none)
    × ((j : ℕ) → lookup s' j ≡ (if i == j then some 4096 else lookup slab j))
    × (s'.task_count ≡ 2 + 1)
insert-Inserts_example =
    insert-Inserts 4096 slab store task (1 ∷ 3 ∷ []) slab-WellFormed (omega arith)
      (λ e. omega arith) even refl

pub held : lookup slab 2 ≡ some 8192
unfolding index
held = refl

free : lookup slab 3 ≡ none
unfolding index
free = refl

remove-Removes_example :
    (s' : Slab) × (remove slab 2 ≡ ok (8192, s'))
    × (remove_dropped_task slab 2 ≡ ok s')
    × WellFormed s' (2 ∷ 1 ∷ 3 ∷ [])
    × ((j : ℕ) → lookup s' j ≡ (if 2 == j then none else lookup slab j))
    × (s'.task_count + 1 ≡ 2)
    × (s'.head ≡ 2)
remove-Removes_example = remove-Removes slab (1 ∷ 3 ∷ []) 2 8192 slab-WellFormed held
