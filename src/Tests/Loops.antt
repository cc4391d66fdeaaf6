-- ===== src/Tests/Loops.antt =====
-- Spawning on a slab of two free slots, and `block_on` there.
use onlyio.Base.{
  ℕ, ◌+◌, ◌≡◌, refl, ap, true, inl, inr, List, [], ◌∷◌, none, some, Option, ok, arith,
}
use onlyio.Sqe.{Entry}
use onlyio.UserData.{CqeEntry}
use onlyio.Task.{RawTask, new, set_task_idx}
use onlyio.Task.Store.{write_cell}
use onlyio.Task.Release.{write_cell-write_cell}
use onlyio.Slab
use onlyio.Slab.{Slab, free_slot, is_task, is_free, next_free}
use onlyio.Slab.Invariant.{WellFormed}
use onlyio.Runtime.{Runtime}
use onlyio.Runtime.Send.{counted}
use onlyio.Runtime.Dispatch.{with_current, spawn}
use onlyio.Runtime.Handles.{settled}
use onlyio.Runtime.Spawn.{readied, first_header, spawn-Settles}
use onlyio.Runtime.Loop.{Turn, block_on}
use onlyio.Runtime.Loop.Ready.{block_on-Returns}
use onlyio.Tests.Runs.{rt, count_poll, more}

abbrev empty : Runtime ℕ
empty = record rt {
  tasks = record { slots = 3 ∷ 5 ∷ []; head = 0; len = 2; task_count = 0 };
  store = record { cells = λ q. none; free_list = []; dropped = []; stale_reads = [] };
}

empty-WellFormed : WellFormed empty.tasks (0 ∷ 1 ∷ [])
unfolding free_slot is_task
empty-WellFormed = record {
  sized = refl;
  small = omega arith;
  starts = refl;
  linked = (omega arith, refl, (omega arith, refl, tt));
  distinct = λ a. ground arith;
  tallied = refl;
  complete = refl;
}

even : is_task 4096 ≡ true
unfolding is_task
even = refl

-- A kernel that never answers
abbrev accepts : ℕ → List Entry → Option ℕ
accepts k es = some k

abbrev waits : ℕ → Option ℕ
waits k = some k

abbrev completes : ℕ → List CqeEntry × ℕ
completes k = ([], k)

block_on-Returns_example :
    (rt' : Runtime ℕ) × (fs' : List ℕ) × (block_on
        (λ f r. ok (f + 1, r))
        more
        accepts
        waits
        completes
        0
        0
        4096
        100
        8
        7
        0
        empty
      ≡ ok (Turn.finished 0 rt'))
    × WellFormed rt'.tasks fs'
    × (rt'.tasks.task_count ≡ 0)
    × (rt'.store.cells 4096 ≡ none)
    × (rt'.store.free_list ≡ [])
    × (rt'.store.dropped ≡ 8 ∷ [])
    × (rt'.pending ≡ [])
    × (rt'.current ≡ empty.current)
block_on-Returns_example =
    block_on-Returns (λ f r. ok (f + 1, r)) more accepts waits completes 0 0 4096 100 8 7 8 0 empty
      (0 ∷ 1 ∷ []) (inr (inr (inr (inl refl)))) (omega arith) even empty-WellFormed (omega arith)
      refl refl (λ r. refl)

-- The header that `new` makes for a future of 100 bytes
abbrev made : RawTask ℕ
made = record { future = 7; alloc_size = 160; ref_counter = 1; syscall_nb = 0; slab_idx = none }

new-made : new 100 8 7 ≡ ok (made, 32)
unfolding new
new-made = refl

abbrev occupied : Slab
occupied = record { slots = 4096 ∷ 5 ∷ []; head = 1; len = 2; task_count = 1 }

inserted :
    Slab.insert 4096 empty.tasks (write_cell empty.store 4096 (some (counted made)))
    ≡ ok (0, occupied, write_cell empty.store 4096 (some (first_header made 0)))
unfolding Slab.insert next_free is_free set_task_idx
inserted = ap (λ st. ok (0, occupied, st)) (write_cell-write_cell empty.store 4096 _ _)

spawn-Settles_example :
    spawn count_poll 4096 100 8 7 empty
    ≡ ok (
        with_current
          (settled 4096 0 8 (first_header made 0) (readied 4096 empty made 0 occupied))
          empty.current)
spawn-Settles_example =
    spawn-Settles count_poll 4096 100 8 7 empty made 0 occupied 8
      (readied 4096 empty made 0 occupied) (first_header made 0) 0 new-made refl inserted refl refl
      refl
