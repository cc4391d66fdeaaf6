-- ===== src/Runtime/Loop.antt =====
-- `block_on` and `submit_and_wait` of src/runtime.rs. The kernel's side of the ring is a state `K` with
-- the three functions of the `io_uring` crate that the loop calls: `push_multiple`, which can find the
-- queue full, `wait` for `submit_and_wait`, which can fail, and `completion`. Both loops of the
-- source run on fuel: `turns` for the outer one and `wakes` for the wake list of one turn. A failure of
-- `wait` leaves the state from before.
pub mod Ready
pub mod Quiet
use onlyio.Base.{
  ℕ, zero, suc, Bool, List, [], ◌∷◌, Option, none, some, Outcome, ok, panics, expect, expect_none,
  explicit, ◌>>=◌, if◌then◌else◌, ◌==◌,
}
use onlyio.Sqe.{Entry}
use onlyio.UserData.{CqeEntry}
use onlyio.Runtime.{Runtime}
use onlyio.Runtime.Dispatch.{free_unsed_slab_slot, handle_cqe_entry, spawn, wake_one}

-- How `block_on` or one turn of its loop ends
pub data Turn (K R : Type 0) : Type 0 where
  finished io_error again out_of_fuel : K → R → Turn K R

module _ {F : Type 0} where
  -- `free_unsed_slab_slot`, and whether no task is left
  unfoldable pub check_free : Runtime F → Outcome (Bool × Runtime F)
  check_free rt = do rt' ← free_unsed_slab_slot rt; ok (rt'.tasks.task_count == 0, rt')

module _ {F : Type 0} (poll_fn : F → Runtime F → Outcome (F × Runtime F)) (more : ℕ → Bool) where
  -- `for entry in entries`
  unfoldable pub handle_all : List CqeEntry → Runtime F → Outcome (Runtime F)
  handle_all [] rt = ok rt
  handle_all (e ∷ es) rt = do rt' ← handle_cqe_entry poll_fn more e rt; handle_all es rt'

  -- The wake list is polled from its front until it is empty.
  unfoldable pub drain : ℕ → Runtime F → Outcome (Option (Runtime F))
  drain zero rt = elim rt.wake_list [ [] ↦ ok (some rt) | w ∷ ws ↦ ok none ]
  drain (suc wakes) rt = elim rt.wake_list [
    | [] ↦ ok (some rt)
    | w ∷ ws ↦ (do rt' ← wake_one poll_fn w (record rt { wake_list = ws }); drain wakes rt')
  ]

  module _ {K : Type 0} (push_multiple : K → List Entry → Option K) (wait : K → Option K)
      (completion : K → List CqeEntry × K) where
    unfoldable pub submit_and_wait : K → Runtime F → Outcome (Option K × Runtime F)
    submit_and_wait k rt = do
      k' ← expect (push_multiple k rt.pending) expect_none
      ok (wait k', record rt { pending = [] })

    -- The completions of one turn, in order, then the wake list
    unfoldable pub collect : ℕ → K → Runtime F → Outcome (Turn K (Runtime F))
    collect wakes k rt = elim ((completion k).0) [
      | [] ↦ panics explicit
      | e ∷ es ↦ (do
        handled ← handle_all (e ∷ es) rt
        drained ← drain wakes handled
        elim drained [
          | none ↦ ok (Turn.out_of_fuel (completion k).1 handled)
          | some rt' ↦ (do
            c ← check_free rt'
            ok (
                if c.0
                then Turn.finished (completion k).1 c.1
                else Turn.again (completion k).1 c.1))
        ])
    ]

    -- One turn of the loop
    unfoldable pub turn : ℕ → K → Runtime F → Outcome (Turn K (Runtime F))
    unfolding collect submit_and_wait check_free
    turn wakes k rt = do
      s ← submit_and_wait k rt
      elim (s.0) [
        | none ↦ ok (Turn.io_error k s.1)
        | some k' ↦ (do
          c ← check_free s.1
          if c.0 then ok (Turn.finished k' c.1) else collect wakes k' c.1)
      ]

    unfoldable pub loop : ℕ → ℕ → K → Runtime F → Outcome (Turn K (Runtime F))
    loop zero wakes k rt = ok (Turn.out_of_fuel k rt)
    loop (suc turns) wakes k rt = do
      t ← turn wakes k rt
      elim t [
        | again k' rt' ↦ loop turns wakes k' rt'
        | finished k' rt' ↦ ok (Turn.finished k' rt')
        | io_error k' rt' ↦ ok (Turn.io_error k' rt')
        | out_of_fuel k' rt' ↦ ok (Turn.out_of_fuel k' rt')
      ]

    unfoldable pub block_on : ℕ → ℕ → ℕ → ℕ → ℕ → F → K → Runtime F → Outcome (Turn K (Runtime F))
    unfolding loop check_free
    block_on turns wakes p size align future k rt = do
      spawned ← spawn poll_fn p size align future rt
      c ← check_free spawned
      if c.0 then ok (Turn.finished k c.1) else loop turns wakes k c.1
