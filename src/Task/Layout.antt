-- ===== src/Task/Layout.antt =====
-- The allocation of `Task::new`: one block, the header of 32 bytes and the future behind it.
use onlyio.Base.{ℕ, ◌+◌, ◌-◌, ◌*◌, ◌/◌, ◌%◌, ◌^◌, ◌≤◌, ◌<◌, ◌≡◌, refl, ◌⊎◌, none, ok, arith}
use onlyio.Task.{RawTask, new}

-- The alignments that `Task::new` accepts.
abbrev pub IsSmallAlign : ℕ → Type 0
IsSmallAlign a = (a ≡ 1) ⊎ (a ≡ 2) ⊎ (a ≡ 4) ⊎ (a ≡ 8) ⊎ (a ≡ 16) ⊎ (a ≡ 32)

module _ {F : Type 0} where
  -- `Task::new` accepts every alignment up to 32 and every size below 4 GiB less 64 bytes: the header
  -- has one reference, waits for call 0 and has no slab index, the future starts at offset 32, and
  -- the block holds it in a multiple of 32 bytes with less than 32 to spare.
  pub new_lem :
      (size align : ℕ) (future : F)
      → IsSmallAlign align
      → size < 2 ^ 32 - 64
      → (t : RawTask F) × (new size align future ≡ ok (t, 32))
        × (t.ref_counter ≡ 1)
        × (t.syscall_nb ≡ 0)
        × (t.slab_idx ≡ none)
        × (t.future ≡ future)
        × (32 + size ≤ t.alloc_size)
        × (t.alloc_size < 64 + size)
        × (t.alloc_size % 32 ≡ 0)
  unfolding new
  new_lem size align future a h =
      (block, at a, refl, refl, refl, refl, omega arith, omega arith, omega arith)
    where
      block : RawTask F
      block = record {
        future = future;
        alloc_size = (32 + size + 31) / 32 * 32;
        ref_counter = 1;
        syscall_nb = 0;
        slab_idx = none;
      }

      at : IsSmallAlign align → new size align future ≡ ok (block, 32)
      at a = ground arith
