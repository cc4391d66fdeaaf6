-- ===== src/Runtime/Turns/Ends.antt =====
-- How `block_on` ends: with a slab without tasks, and with no entry that waits or is in flight.
use onlyio.Base.{
  ℕ, zero, suc, ◌+◌, ◌≡◌, refl, sym, ap, subst, ◌∙◌, true, Bool, inl, inr, Bool-cases, Option-cases,
  List, [], Option, some, none, Outcome, ok, arith, Ensures, Ensures.returns, Ensures.stops,
  Ensures-bind, ◌==◌, ==→eq, eq→==, count, ◌↔◌,
}
use onlyio.Sqe.{Entry}
use onlyio.UserData.{CqeEntry}
use onlyio.Slab.{is_task}
use onlyio.Slab.Map.{lookup, idle-lookup, lookup-idle}
use onlyio.Runtime.{Runtime}
use onlyio.Runtime.Loop.{
  Turn, Turn.finished, Turn.io_error, Turn.again, Turn.out_of_fuel, check_free, submit_and_wait,
  collect, turn, loop, block_on,
}
use onlyio.Runtime.Loop.Quiet.{list_cases, drain-quiet}
use onlyio.Runtime.Acts.{HasRoom}
use onlyio.Runtime.Acts.Entries.{refs, refs-append}
use onlyio.Runtime.Acts.Balance.{Balanced, rebalance}
use onlyio.Runtime.Polls.{Lawful}
use onlyio.Runtime.Polls.Whole.{spawn-Balanced, free_unsed_slab_slot-Balanced}
use onlyio.Runtime.Turns.{Kernel, held_by, none_held, handle_all-Balanced, Answers}

module _ {F : Type 0} where
  -- A slab without tasks has no claims on it, so nothing waits and nothing is in flight.
  idle-Balanced :
      (flight : List Entry) (rt : Runtime F)
      → Balanced (held_by flight) rt
      → rt.tasks.task_count ≡ 0
      → (flight ≡ []) × (rt.pending ≡ [])
  idle-Balanced flight rt b c = (
    none_held flight λ j. omega (arith, unclaimed j),
    none_held rt.pending λ j. omega (arith, unclaimed j),
  )
    where
      unclaimed : (j : ℕ) → refs j flight + refs j rt.pending ≡ 0
      unclaimed j =
          (b.1.unused j (idle-lookup rt.tasks j b.1.wf.sized (omega (arith, b.1.wf.tallied, c)))).0

  -- When the counts of the tasks are the numbers of the entries that name them, which wait to be
  -- submitted or are `flight`, and no waker waits, `check_free` does not fail, keeps this, and answers
  -- that no task is left exactly if no entry waits or is in flight.
  pub check_free-Balanced :
      (flight : List Entry) (rt : Runtime F)
      → Balanced (held_by flight) rt
      → (b : Bool) × (v : Runtime F) × (check_free rt ≡ ok (b, v))
        × Balanced (held_by flight) v
        × (v.pending ≡ rt.pending)
        × ((b ≡ true) ↔ ((flight ≡ []) × (rt.pending ≡ [])))
  unfolding check_free
  check_free-Balanced flight rt b =
      let (v, e, bv, empty, same) = free_unsed_slab_slot-Balanced (held_by flight) rt b in
      (
        v.tasks.task_count == 0,
        v,
        rw e refl,
        bv,
        same,
        (
          λ t. let i = idle-Balanced flight v bv (==→eq _ _ t) in (i.0, sym same ∙ i.1),
          λ n. eq→== _ _ (
              bv.1.wf.tallied
              ∙ lookup-idle v.tasks bv.1.wf.sized (no_task v bv empty n.0 (same ∙ n.1))),
        ),
      )
    where
      no_task :
          (v : Runtime F)
          → Balanced (held_by flight) v
          → v.store.free_list ≡ []
          → flight ≡ []
          → v.pending ≡ []
          → (j : ℕ) → lookup v.tasks j ≡ none
      no_task v bv empty f p j = elim (Option-cases (lookup v.tasks j)) [
        | inl n ↦ n
        | inr (q, h) ↦ absurd (ground (arith, bv.1.claimed j q h (ap (count j) empty), f, p))
      ]

module _ {F : Type 0} (poll_fn : F → Runtime F → Outcome (F × Runtime F)) (law : Lawful poll_fn)
    (more : ℕ → Bool) {K : Type 0} (push_multiple : K → List Entry → Option K) (wait : K → Option K)
    (completion : K → List CqeEntry × K) (kernel : Kernel more push_multiple wait completion) where
  -- What holds of the kernel and the runtime at the end of a turn, unless the system call failed
  abbrev pub Ends : Turn K (Runtime F) → Type 0
  Ends (finished k rt) =
      Balanced (held_by (kernel.flight k)) rt × (kernel.flight k ≡ []) × (rt.pending ≡ [])
  Ends (again k rt) = Balanced (held_by (kernel.flight k)) rt
  Ends (out_of_fuel k rt) = Balanced (held_by (kernel.flight k)) rt
  Ends (io_error k rt) = Unit {0}

  collect-Ends :
      (wakes : ℕ) (k : K) (rt : Runtime F)
      → Balanced (held_by (kernel.flight k)) rt
      → Ensures Ends (collect poll_fn more push_multiple wait completion wakes k rt)
  unfolding collect
  collect-Ends wakes k rt b = elim (list_cases (completion k).0) [
    | inl none_yet ↦ rw (collect, none_yet) stops
    | inr (e, es, some_now) ↦
        rw (collect, some_now)
          (Ensures-bind
            (handle_all-Balanced poll_fn law more rt
              (subst (λ cs. Answers more (kernel.flight k) cs (kernel.flight (completion k).1))
                some_now (kernel.completes k))
              b)
            λ handled h.
              let (c, v, checked, w, same, fin) =
                check_free-Balanced (kernel.flight (completion k).1) handled h in
              rw (drain-quiet poll_fn more wakes handled h.2, checked)
                (elim (Bool-cases c) [
                  | inl t ↦ rw t (returns (w, (fin.0 t).0, same ∙ (fin.0 t).1))
                  | inr f ↦ rw f (returns w)
                ]))
  ]

  turn-Ends :
      (wakes : ℕ) (k : K) (rt : Runtime F)
      → Balanced (held_by (kernel.flight k)) rt
      → Ensures Ends (turn poll_fn more push_multiple wait completion wakes k rt)
  unfolding turn submit_and_wait
  turn-Ends wakes k rt b = elim (Option-cases (push_multiple k rt.pending)) [
    | inl full ↦ rw (turn, submit_and_wait, full) stops
    | inr (k₁, pushed) ↦ elim (Option-cases (wait k₁)) [
      | inl failed ↦ rw (turn, submit_and_wait, pushed, failed) (returns tt)
      | inr (k₂, waited) ↦
          let taken = submitted k k₁ k₂ rt pushed waited b in
          let (c, v, checked, w, same, fin) =
            check_free-Balanced (kernel.flight k₂) (record rt { pending = [] }) taken in
          rw (turn, submit_and_wait, pushed, waited, checked)
            (elim (Bool-cases c) [
              | inl t ↦ rw t (returns (w, (fin.0 t).0, same))
              | inr f ↦ rw f (collect-Ends wakes k₂ v w)
            ])
    ]
  ]
    where
      submitted :
          (k k₁ k₂ : K) (rt : Runtime F)
          → push_multiple k rt.pending ≡ some k₁
          → wait k₁ ≡ some k₂
          → Balanced (held_by (kernel.flight k)) rt
          → Balanced (held_by (kernel.flight k₂)) (record rt { pending = [] })
      submitted k k₁ k₂ rt pushed waited b =
          rebalance (held_by (kernel.flight k₂)) (record rt { pending = [] }) b.0 _ b.2 b.1
            λ j. sym (
              omega (
                arith,
                ap (refs j) (kernel.waits k₁ k₂ waited ∙ kernel.pushes k k₁ rt.pending pushed),
                refs-append j (kernel.flight k) rt.pending,
              ))

  next :
      (turns wakes : ℕ) (t : Turn K (Runtime F))
      → Ends t
      → ((k : K) (rt : Runtime F)
          → Balanced (held_by (kernel.flight k)) rt
          → Ensures Ends (loop poll_fn more push_multiple wait completion turns wakes k rt))
      → Ensures Ends (elim t [
        | again k' rt' ↦ loop poll_fn more push_multiple wait completion turns wakes k' rt'
        | finished k' rt' ↦ ok (Turn.finished k' rt')
        | io_error k' rt' ↦ ok (Turn.io_error k' rt')
        | out_of_fuel k' rt' ↦ ok (Turn.out_of_fuel k' rt')
      ])
  next turns wakes (again k' rt') h on = on k' rt' h
  next turns wakes (finished k' rt') h on = returns h
  next turns wakes (io_error k' rt') h on = returns h
  next turns wakes (out_of_fuel k' rt') h on = returns h

  loop-Ends :
      (turns wakes : ℕ) (k : K) (rt : Runtime F)
      → Balanced (held_by (kernel.flight k)) rt
      → Ensures Ends (loop poll_fn more push_multiple wait completion turns wakes k rt)
  unfolding loop
  loop-Ends zero wakes k rt b = returns b
  loop-Ends (suc turns) wakes k rt b =
      Ensures-bind (turn-Ends wakes k rt b)
        λ t h. next turns wakes t h λ k' rt' b'. loop-Ends turns wakes k' rt' b'

  pub block_on-Ends :
      (turns wakes p size align : ℕ) (future : F) (k : K) (rt : Runtime F)
      → Balanced (held_by (kernel.flight k)) rt
      → rt.store.cells p ≡ none
      → is_task p ≡ true
      → HasRoom rt.tasks
      → Ensures Ends
          (block_on poll_fn more push_multiple wait completion turns wakes p size align future k rt)
  unfolding block_on
  block_on-Ends turns wakes p size align future k rt b fresh even room =
      Ensures-bind
        (spawn-Balanced poll_fn law (held_by (kernel.flight k)) p size align future rt b fresh even
          room)
        λ spawned h.
          let (c, v, checked, w, same, fin) = check_free-Balanced (kernel.flight k) spawned h.0 in
          rw checked (elim (Bool-cases c) [
            | inl t ↦ rw t (returns (w, (fin.0 t).0, same ∙ (fin.0 t).1))
            | inr f ↦ rw f (loop-Ends turns wakes k v w)
          ])
