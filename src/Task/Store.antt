-- ===== src/Task/Store.antt =====
-- Tasks in memory: the blocks that `Task` handles point to, RUNTIME_FREE_LIST, and the futures
-- whose `drop_fn` has run, newest first. `stale_reads` has the addresses that `release` has read
-- after it had freed the block there, newest first. What dropping a future does beyond that is its
-- own; the thread-local list is taken to be alive. A handle is the address of its block.
use onlyio.Base.{
  ℕ, ◌-◌, List, [], ◌∷◌, ◌++◌, Option, none, some, Outcome, ok, expect, deref, sub_overflow, ◌>>=◌,
  ◌==◌, if◌then◌else◌,
}
use onlyio.Task.{RawTask, inc_rc}

pub record Store (F : Type 0) : Type 0 where
  pub cells : ℕ → Option (RawTask F)
  pub free_list : List ℕ
  pub dropped : List F
  pub stale_reads : List ℕ

-- `checked` subtraction of one
abbrev pub pred? : ℕ → Option ℕ
pred? n = if n == 0 then none else some (n - 1)

module _ {ℓ} {A : Type ℓ} where
  abbrev pub update : (ℕ → A) → ℕ → A → ℕ → A
  update f p a q = if p == q then a else f q

module _ {F : Type 0} where
  -- A block comes to be at an address that the allocator chose.
  abbrev pub write_cell : Store F → ℕ → Option (RawTask F) → Store F
  write_cell s p c = record s { cells = update s.cells p c }

  -- Applies an operation on the header behind a handle.
  abbrev pub modify : (RawTask F → Outcome (RawTask F)) → ℕ → Store F → Outcome (Store F)
  modify f p s = do t ← deref (s.cells p); t' ← f t; ok (write_cell s p (some t'))

  -- `Task::clone`: the new handle is the same address.
  unfoldable pub clone : ℕ → Store F → Outcome (Store F)
  clone p s = modify inc_rc p s

  -- The block's future is dropped, the block freed and its slab index put on the free list. The
  -- count is then read through the pointer into the block that has just been freed.
  abbrev pub freed : ℕ → RawTask F → Store F → Store F
  freed p t s = record {
    cells = update s.cells p none;
    free_list = elim t.slab_idx [ none ↦ s.free_list | some i ↦ s.free_list ++ (i ∷ []) ];
    dropped = t.future ∷ s.dropped;
    stale_reads = p ∷ s.stale_reads;
  }

  -- `Task::release`. The last one returns what it reads from the block that it has just freed, which
  -- can be anything: `none` stands for that, and no caller looks at it. The read is undefined
  -- behaviour in the source; here it is recorded in `stale_reads`, so that what else a run does
  -- can be stated. Any other access to a freed block is `undefined`.
  unfoldable pub release : ℕ → Store F → Outcome (Option ℕ × Store F)
  release p s = do
    t ← deref (s.cells p)
    counter ← expect (pred? t.ref_counter) sub_overflow
    ok (
        if counter == 0
        then (none, freed p t s)
        else (some counter, write_cell s p (some (record t { ref_counter = counter }))))
