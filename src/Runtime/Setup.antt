-- ===== src/Runtime/Setup.antt =====
-- `Runtime::new` of src/runtime.rs, with the values that the thread-locals start with. What the kernel
-- and the allocator answer is the parameter `Answered`.
pub mod Ready
use onlyio.Base.{
  ℕ, ◌*◌, ◌-◌, ◌^◌, Bool, not, ◌⊎◌, inl, inr, List, [], Option, none, some, Outcome, ok, ◌>>=◌,
  ◌>>◌, assert, expect_none, assert_failed, leb,
}
use onlyio.Base.Int.{ℤ}
use onlyio.UserData.{dummy}
use onlyio.Slab
use onlyio.BufPool
use onlyio.BufPool.{Iovec, build_iovecs, page_size}
use onlyio.BufRing
use onlyio.Runtime.{Runtime, pages}

-- Whether the ring could be built, the error of each registration if it has one, the address of the
-- pool, and whether the memory of the buffer ring is null
pub record Answered : Type 0 where
  pub built : Bool
  pub register_files_sparse : Option ℤ
  pub register_buffers : List Iovec → Option ℤ
  pub register_buf_ring : Option ℤ
  pub base : ℕ
  pub is_null : Bool

-- The slots of each kind, and the first capacity of the slab
abbrev pub slot_count : ℕ
slot_count = 512

abbrev pub first_capacity : ℕ
first_capacity = 16

module _ {F : Type 0} where
  -- `Ok` is `inl`. A `?` returns the error.
  unfoldable pub new : Answered → Outcome (Runtime F ⊎ ℤ)
  new a = do
    assert a.built expect_none
    elim a.register_files_sparse [
      | some e ↦ ok (inr e)
      | none ↦ (do
        buffer ← BufPool.new pages a.base slot_count slot_count
        elim (a.register_buffers (build_iovecs pages buffer)) [
          | some e ↦ ok (inr e)
          | none ↦ (do
            assert (leb (buffer.read_count * 16) (2 ^ 63 - page_size)) expect_none
            assert (not a.is_null) assert_failed
            buf_ring ← BufRing.init pages buffer
            elim a.register_buf_ring [
              | some e ↦ ok (inr e)
              | none ↦ (do
                tasks ← Slab.with_capacity first_capacity
                ok (
                    inl (record {
                      tasks = tasks;
                      store = record {
                        cells = λ p. none;
                        free_list = [];
                        dropped = [];
                        stale_reads = [];
                      };
                      buffer = buffer;
                      buf_ring = buf_ring;
                      pending = [];
                      current = dummy;
                      wake_list = [];
                    })))
            ])
        ])
    ]
