-- ===== src/Words.antt =====
-- The bit operations of the source on `u16` words, as arithmetic, with MULTIPLE_MASK of
-- src/task.rs. The child `Bits` compares them with the native bit operations.
pub mod Bits
use onlyio.Base.{ℕ, ◌+◌, ◌*◌, ◌/◌, ◌%◌, ◌^◌}

abbrev pub u16_mod : ℕ
u16_mod = 2 ^ 16

abbrev pub u32_mod : ℕ
u32_mod = 2 ^ 32

abbrev pub multiple_mask : ℕ
multiple_mask = 0x8000

-- `x & !MULTIPLE_MASK`
abbrev pub rank : ℕ → ℕ
rank x = x % 0x8000

-- `x & MULTIPLE_MASK`
abbrev pub multiple_bit : ℕ → ℕ
multiple_bit x = x / 0x8000 % 2 * 0x8000

-- `x | MULTIPLE_MASK`
abbrev pub set_multiple : ℕ → ℕ
set_multiple x = x % 0x8000 + 0x8000
