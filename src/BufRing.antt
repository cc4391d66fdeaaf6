-- ===== src/BufRing.antt =====
-- src/runtime.rs, lines 73 to 100 and 360 to 382: the ring through which read slots go to the kernel.
-- An entry is 16 bytes of which the source writes three fields; the tail lies in the unused bytes of
-- entry 0, which no entry write touches, so it is a field of its own. The kernel keeps its own head.
pub mod Window
pub mod Init
pub mod Shares
pub mod Steps
use Prim.Native.Nat.{bit_and}
use onlyio.Base.{
  ℕ, zero, suc, ◌+◌, ◌-◌, ◌*◌, ◌%◌, ◌^◌, List, [], ◌∷◌, Outcome, ok, expect, assert_failed, ◌>>=◌,
  get_elem?, set,
}
use onlyio.BufPool.{BufPool, Iovec, buf_size, build_iovecs, read_buf_addr}

pub record RingEntry : Type 0 where
  pub addr : ℕ
  pub len : ℕ
  pub bid : ℕ

pub record BufRing : Type 0 where
  pub entries : List RingEntry
  pub tail : ℕ

-- The loop of `Runtime::new`: `k` entries from index `i` on
unfoldable pub init_entries : List Iovec → ℕ → ℕ → Outcome (List RingEntry)
init_entries iovs zero i = ok []
init_entries iovs (suc k) i = do
  v ← expect (get_elem? iovs i) assert_failed
  rest ← init_entries iovs k (i + 1)
  ok (record { addr = v.iov_base; len = v.iov_len % 2 ^ 32; bid = i % 2 ^ 16 } ∷ rest)

module _ (n : ℕ) (p : BufPool) where
  unfoldable pub init : Outcome BufRing
  unfolding init_entries
  init = do
    entries ← init_entries (build_iovecs n p) p.read_count 0
    ok (record { entries = entries; tail = p.read_count % 2 ^ 16 })

  -- `release_buf_to_ring`: the entry at `tail & mask`, then the tail as a `u16`
  unfoldable pub release_buf_to_ring : BufRing → ℕ → Outcome BufRing
  release_buf_to_ring r buf_idx = do
    let slot = bit_and r.tail (p.read_count - 1)
    addr ← read_buf_addr n p buf_idx
    let entry : RingEntry = record {
      addr = addr;
      len = buf_size n % 2 ^ 32;
      bid = buf_idx % 2 ^ 16;
    }
    ok (record { entries = set r.entries slot entry; tail = (r.tail + 1) % 2 ^ 16 })
