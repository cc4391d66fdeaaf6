-- ===== src/Tests/Pools.antt =====
-- A pool of two read slots and two write slots, one of which is in use.
use onlyio.Base.{ok, undefined, ◌⊎◌, ℕ, ◌+◌, ◌*◌, ◌≤◌, ◌<◌, ◌≡◌, [], ◌∷◌, some, arith, get_elem?}
use onlyio.BufPool.{BufPool, WBuffer, Iovec, buf_size, build_iovecs, write_buf_ptr}
use onlyio.BufPool.Invariant.{WellFormed}
use onlyio.BufPool.Addresses.{build_iovecs_lem, write_buf_ptr-outside}

abbrev pub pool : BufPool
pool = record { base = 0x10000; read_count = 2; write_free = 3 ∷ []; write_rc = 1 ∷ 0 ∷ [] }

abbrev pub handle : WBuffer
handle = record { ptr = 0x12000; abs_idx = 2 }

pub pool-WellFormed : WellFormed pool
pool-WellFormed = record {
  below = λ a h. ground arith;
  above = λ a h. ground arith;
  free_iff = λ rel v h. ground arith;
  counted = λ rel v h. ground arith;
  indexed = omega arith;
}

-- The registered buffer of a slot
abbrev slot : ℕ → Iovec
slot i = record { iov_base = 0x10000 + i * buf_size 1; iov_len = buf_size 1 }

at : (i : ℕ) → i < 4 → get_elem? (build_iovecs 1 pool) i ≡ some (slot i)
at i h = build_iovecs_lem 1 pool i h

write_buf_ptr-outside_example :
    ((ptr : ℕ) × (1 < 2) × (write_buf_ptr 1 pool 1 ≡ ok ptr) × (0x11000 + 4096 ≤ ptr))
    ⊎ ((2 ≤ 1) × (write_buf_ptr 1 pool 1 ≡ undefined))
write_buf_ptr-outside_example =
    write_buf_ptr-outside 1 pool 1 {a = slot 1} (omega arith) (omega arith) (at 1 (omega arith))
