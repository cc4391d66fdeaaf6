-- ===== src/Task/Count.antt =====
-- The checked increments of the reference count.
use onlyio.Base.{
  ℕ, ◌+◌, ◌%◌, ◌^◌, ◌<◌, ◌≡◌, ok, panics, expect_none, assert_failed, ltb, ◌==◌, if◌then◌else◌,
  arith,
}
use onlyio.Task.{RawTask, add_rc, inc_rc}

module _ {F : Type 0} where
  -- `inc_rc` adds one to every count below 0xffff and panics for overflow at 0xffff. Its assertion
  -- never fails, also not where the count crosses 0x8000.
  pub inc_rc_lem :
      (t : RawTask F)
      → t.ref_counter < 2 ^ 16
      → inc_rc t ≡ (
          if ltb t.ref_counter 0xffff
          then ok (record t { ref_counter = t.ref_counter + 1 })
          else panics expect_none)
  unfolding inc_rc
  inc_rc_lem t h = ground arith

  -- `add_rc` panics for overflow above 0xffff; below, its assertion fails exactly for a count of 0
  -- and of 0x8000, and any other count is added.
  pub add_rc_lem :
      (t : RawTask F) (count : ℕ)
      → t.ref_counter < 2 ^ 16
      → count < 2 ^ 16
      → add_rc t count ≡ (
          if ltb 0xffff (t.ref_counter + count)
          then panics expect_none
          else if count % 0x8000 == 0
          then panics assert_failed
          else ok (record t { ref_counter = t.ref_counter + count }))
  unfolding add_rc
  add_rc_lem t count h k = ground arith
