-- ===== src/BufPool.antt =====
-- src/buf_pool.rs: one allocation, cut into read slots (owned by the buffer ring) and write slots
-- (given out by `alloc_write`, with a count of handles each). `n` is the number of pages of a slot,
-- the source's const parameter; `base` is the address that the allocator returned.
pub mod Invariant
pub mod Handles
pub mod Alloc
pub mod Addresses
pub mod Bytes
use onlyio.Base.{
  undefined, ℕ, zero, suc, ◌+◌, ◌-◌, ◌*◌, ◌%◌, ◌^◌, Bool, true, false, ◌&&◌, List, [], ◌∷◌, ◌++◌,
  Option, none, some, map, Outcome, ok, panics, assert, expect, assert_failed, add_overflow,
  sub_overflow, expect_none, ◌>>=◌, ◌>>◌, ltb, leb, ◌==◌, if◌then◌else◌, get_elem?, set, length,
}
use onlyio.Sqe.{Entry, write_fixed}
use onlyio.UserData.Internal.{wbuf_write_udata}

abbrev pub page_size : ℕ
page_size = 4096

-- Checked `u32` arithmetic
abbrev pub add32 : ℕ → ℕ → Outcome ℕ
add32 a b = if ltb (a + b) (2 ^ 32) then ok (a + b) else panics add_overflow

abbrev pub sub32 : ℕ → ℕ → Outcome ℕ
sub32 a b = if ltb a b then panics sub_overflow else ok (a - b)

pub record BufPool : Type 0 where
  pub base : ℕ
  pub read_count : ℕ
  pub write_free : List ℕ
  pub write_rc : List ℕ

pub record WBuffer : Type 0 where
  pub ptr : ℕ
  pub abs_idx : ℕ

pub record RwBuffer : Type 0 where
  pub ptr : ℕ
  pub buf_idx : ℕ
  pub fd_idx : ℕ
  pub bytes : ℕ
  pub committed : Bool

pub record Iovec : Type 0 where
  pub iov_base : ℕ
  pub iov_len : ℕ

abbrev pub range : ℕ → ℕ → List ℕ
range zero i = []
range (suc k) i = i ∷ range k (i + 1)

abbrev pub replicate : ℕ → ℕ → List ℕ
replicate zero a = []
replicate (suc k) a = a ∷ replicate k a

-- `write_rc[rel]`, an index with a bounds check
abbrev pub rc_at : BufPool → ℕ → Outcome ℕ
rc_at p rel = expect (get_elem? p.write_rc rel) assert_failed

-- `drop` of a `WBuffer` and `on_write_cqe` on `abs_idx`: one handle less; at none the slot goes to the
-- back of the free list.
unfoldable pub on_write_cqe : BufPool → ℕ → Outcome BufPool
on_write_cqe p abs_idx = do
  rel ← sub32 abs_idx p.read_count
  rc ← rc_at p rel
  assert (ltb 0 rc) assert_failed
  ok (record p {
    write_rc = set p.write_rc rel (rc - 1);
    write_free = if rc - 1 == 0 then p.write_free ++ abs_idx ∷ [] else p.write_free;
  })

unfoldable pub drop : BufPool → WBuffer → Outcome BufPool
unfolding on_write_cqe
drop p w = on_write_cqe p w.abs_idx

unfoldable pub clone : BufPool → WBuffer → Outcome (WBuffer × BufPool)
clone p w = do
  rel ← sub32 w.abs_idx p.read_count
  rc ← rc_at p rel
  assert (ltb 0 rc) assert_failed
  next ← add32 rc 1
  ok (w, record p { write_rc = set p.write_rc rel next })

-- `index`: `abs_idx as u16`
unfoldable pub index : WBuffer → ℕ
index w = w.abs_idx % 2 ^ 16

-- `WBuffer::write` consumes the handle: it is dropped when the entry is built.
unfoldable pub write : BufPool → WBuffer → ℕ → ℕ → ℕ → Outcome (Entry × BufPool)
unfolding index drop
write p w fd_idx len user_data = do
  p' ← drop p w
  ok (record { op = write_fixed fd_idx w.ptr len (index w); user_data = user_data }, p')

-- `WBuffer::submit` consumes the handle as well: nothing in the source forgets it.
unfoldable pub submit : BufPool → List Entry → WBuffer → ℕ → ℕ → Outcome (List Entry × BufPool)
unfolding index drop
submit p pending w fd_idx len = do
  let entry : Entry = record {
    op = write_fixed fd_idx w.ptr len (index w);
    user_data = wbuf_write_udata w.abs_idx;
  }
  p' ← drop p w
  ok (pending ++ entry ∷ [], p')

module _ (n : ℕ) where
  -- `BUF_SIZE`
  abbrev pub buf_size : ℕ
  buf_size = n * page_size

  unfoldable pub new : ℕ → ℕ → ℕ → Outcome BufPool
  new base read_count write_count = do
    assert (ltb 0 read_count && ltb 0 write_count) assert_failed
    total ← add32 read_count write_count
    assert (leb (total * buf_size) (2 ^ 63 - page_size)) expect_none
    ok (record {
      base = base;
      read_count = read_count;
      write_free = range write_count read_count;
      write_rc = replicate write_count 0;
    })

  -- The caller has to keep `buf_id` below the number of the write slots.
  unfoldable pub write_buf_ptr : BufPool → ℕ → Outcome ℕ
  write_buf_ptr p buf_id =
      if ltb buf_id (length p.write_rc)
      then ok (p.base + (p.read_count + buf_id) * buf_size)
      else undefined

  unfoldable pub read_buf_addr : BufPool → ℕ → Outcome ℕ
  read_buf_addr p buf_idx = do
    assert (ltb buf_idx p.read_count) assert_failed
    ok (p.base + buf_idx * buf_size)

  unfoldable pub build_iovecs : BufPool → List Iovec
  build_iovecs p =
      map (λ i. record { iov_base = p.base + i * buf_size; iov_len = buf_size })
        (range (p.read_count + length p.write_rc) 0)

  unfoldable pub checkout_read : BufPool → ℕ → ℕ → ℕ → Outcome RwBuffer
  checkout_read p buf_idx fd_idx bytes = do
    assert (ltb buf_idx p.read_count) assert_failed
    ok (record {
      ptr = p.base + buf_idx * buf_size;
      buf_idx = buf_idx;
      fd_idx = fd_idx;
      bytes = bytes;
      committed = false;
    })

  unfoldable pub alloc_write : BufPool → Outcome (WBuffer × BufPool)
  alloc_write p = elim p.write_free [
    | [] ↦ panics expect_none
    | abs_idx ∷ rest ↦ (do
      rel ← sub32 abs_idx p.read_count
      rc ← rc_at p rel
      assert (rc == 0) assert_failed
      ok (
        record { ptr = p.base + abs_idx * buf_size; abs_idx = abs_idx },
        record p { write_free = rest; write_rc = set p.write_rc rel 1 },
      ))
  ]
