-- ===== src/BufPool/Bytes.antt =====
-- The bytes of the pool of src/buf_pool.rs: the slices that the handles give, and what is read and
-- written through them. An access outside the allocation is undefined behaviour.
pub mod Slots
use onlyio.Base.{
  ℕ, zero, suc, ◌+◌, ◌*◌, ◌≤◌, ◌&&◌, List, [], ◌∷◌, Outcome, ok, panics, undefined, assert_failed,
  leb, ◌==◌, if◌then◌else◌, length,
}
use onlyio.BufPool.{BufPool, WBuffer, RwBuffer, buf_size}

-- A slice: where it starts, and how many bytes it has
pub record Slice : Type 0 where
  pub ptr : ℕ
  pub len : ℕ

-- The one allocation of the pool, and its bytes by their addresses
pub record Memory : Type 0 where
  pub base : ℕ
  pub size : ℕ
  pub byte : ℕ → ℕ

-- `RwBuffer::read_slice`: what was received
unfoldable pub read_slice : RwBuffer → Slice
read_slice b = record { ptr = b.ptr; len = b.bytes }

module _ (n : ℕ) where
  -- `RwBuffer::write_slice`: the whole slot
  unfoldable pub write_slice : RwBuffer → Slice
  write_slice b = record { ptr = b.ptr; len = buf_size n }

  -- `WBuffer::write_slice`, `deref` and `deref_mut`
  unfoldable pub deref_mut : WBuffer → Slice
  deref_mut w = record { ptr = w.ptr; len = buf_size n }

abbrev pub bytes_from : (ℕ → ℕ) → ℕ → ℕ → List ℕ
bytes_from byte ptr zero = []
bytes_from byte ptr (suc k) = byte ptr ∷ bytes_from byte (ptr + 1) k

abbrev pub with_bytes : (ℕ → ℕ) → ℕ → List ℕ → ℕ → ℕ
with_bytes byte ptr [] a = byte a
with_bytes byte ptr (b ∷ bs) a = if ptr == a then b else with_bytes byte (ptr + 1) bs a

-- The bytes of a slice
abbrev pub load : Memory → Slice → Outcome (List ℕ)
load m s =
    if leb m.base s.ptr && leb (s.ptr + s.len) (m.base + m.size)
    then ok (bytes_from m.byte s.ptr s.len)
    else undefined

-- `slice[..bytes.len()].copy_from_slice(bytes)`
abbrev pub copy_from_slice : Memory → Slice → List ℕ → Outcome Memory
copy_from_slice m s bs =
    if leb (length bs) s.len
    then (if leb m.base s.ptr && leb (s.ptr + length bs) (m.base + m.size)
        then ok (record m { byte = with_bytes m.byte s.ptr bs })
        else undefined)
    else panics assert_failed
