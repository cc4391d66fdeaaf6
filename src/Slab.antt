-- ===== src/Slab.antt =====
-- src/task_slab.rs: the slab of tasks with an intrusive free list. A slot is the 64-bit word of the
-- union `SlabSlot`: the address of a task, which is even, or `idx`, of which the low half counts.
-- Memory is that of `Task.Store`; the addresses that the allocator returns for the slots are not
-- modelled, so `ptr` is the list of the slots.
pub mod Chain
pub mod Tally
pub mod Fill
pub mod Invariant
pub mod Map
pub mod Insert
pub mod Remove
use onlyio.Base.{
  ℕ, zero, suc, ◌+◌, ◌-◌, ◌*◌, ◌/◌, ◌%◌, ◌^◌, Bool, List, [], ◌∷◌, ◌++◌, Option, none, some,
  Outcome, ok, panics, assert, expect, deref, assert_failed, add_overflow, sub_overflow, explicit,
  ◌>>=◌, ◌>>◌, ltb, leb, ◌==◌, if◌then◌else◌, get_elem?, set,
}
use onlyio.Task.{set_task_idx}
use onlyio.Task.Store.{Store, modify, pred?, release}

-- The low half of the word, `idx[0]`
abbrev pub low_half : ℕ → ℕ
low_half w = w % 2 ^ 32

unfoldable pub is_free : ℕ → Bool
is_free w = low_half w % 2 == 1

unfoldable pub is_task : ℕ → Bool
is_task w = low_half w % 2 == 0

unfoldable pub next_free : ℕ → Outcome ℕ
unfolding is_free
next_free w = do assert (is_free w) assert_failed; ok (low_half w / 2)

-- `(next << 1) | 1` in a `u32`: the shift loses the top bit.
unfoldable pub free_slot : ℕ → ℕ
free_slot next = next * 2 % 2 ^ 32 + 1

pub record Slab : Type 0 where
  pub slots : List ℕ
  pub head : ℕ
  pub len : ℕ
  pub task_count : ℕ

abbrev pub u32_max : ℕ
u32_max = 2 ^ 32 - 1

-- `for i in start..start + n { write(i, free_slot(i + 1)) }`
unfoldable pub write_chain : ℕ → ℕ → List ℕ
write_chain zero start = []
write_chain (suc n) start = free_slot (start + 1) ∷ write_chain n (start + 1)

-- `Slab::with_capacity`, whose argument is not 0
unfoldable pub with_capacity : ℕ → Outcome Slab
with_capacity cap = do
  assert (leb cap (u32_max / 2)) assert_failed
  ok (record {
    slots = write_chain (cap - 1) 0 ++ free_slot cap ∷ [];
    head = 0;
    len = cap;
    task_count = 0;
  })

-- `old_len.checked_mul(2).unwrap_or(u32::MAX)`
abbrev pub doubled : ℕ → ℕ
doubled n = if ltb (n * 2) (2 ^ 32) then n * 2 else u32_max

unfoldable pub growth : Slab → Outcome Slab
growth s =
    if s.len == u32_max
    then panics explicit
    else ok (record s {
      slots =
          s.slots
          ++ (write_chain (doubled s.len - 1 - s.len) s.len ++ free_slot (doubled s.len) ∷ []);
      len = doubled s.len;
    })

module _ {F : Type 0} where
  unfoldable pub insert : ℕ → Slab → Store F → Outcome (ℕ × Slab × Store F)
  insert task slab store = do
    s ← (if slab.head == slab.len then growth slab else ok slab)
    slot ← deref (get_elem? s.slots s.head)
    store' ← modify (λ t. ok (set_task_idx t s.head)) task store
    next ← next_free slot
    count ← expect (if s.task_count == u32_max then none else some (s.task_count + 1)) add_overflow
    ok (
      s.head,
      record s { slots = set s.slots s.head task; head = next; task_count = count },
      store',
    )

-- The checks of `remove`, `remove_dropped_task`, `index` and `index_mut`, and the slot that they
-- find.
unfoldable pub task_at : Slab → ℕ → Outcome ℕ
unfolding is_task
task_at s i = do
  assert (ltb i s.len) assert_failed
  slot ← deref (get_elem? s.slots i)
  assert (is_task slot) assert_failed
  ok slot

-- `index` and `index_mut`: the handle in the slot
unfoldable pub index : Slab → ℕ → Outcome ℕ
unfolding task_at
index s i = task_at s i

unfoldable pub remove_dropped_task : Slab → ℕ → Outcome Slab
unfolding task_at
remove_dropped_task s i = do
  slot ← task_at s i
  count ← expect (pred? s.task_count) sub_overflow
  ok (record s { slots = set s.slots i (free_slot s.head); head = i; task_count = count })

unfoldable pub remove : Slab → ℕ → Outcome (ℕ × Slab)
unfolding task_at
remove s i = do
  slot ← task_at s i
  count ← expect (pred? s.task_count) sub_overflow
  ok (slot, record s { slots = set s.slots i (free_slot s.head); head = i; task_count = count })

module _ {F : Type 0} where
  -- `Drop for SlabSlot`
  abbrev pub drop_slot : ℕ → Store F → Outcome (Store F)
  drop_slot w store = if is_free w then ok store else (release w store >>= λ r. ok r.1)

  -- `Slab::drop`: releases the task of every slot that is not free, in the order of the slots.
  unfoldable pub drop_slots : List ℕ → Store F → Outcome (Store F)
  unfolding is_free
  drop_slots [] store = ok store
  drop_slots (w ∷ ws) store = do store' ← drop_slot w store; drop_slots ws store'
