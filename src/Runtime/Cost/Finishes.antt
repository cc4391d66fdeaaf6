-- ===== src/Runtime/Cost/Finishes.antt =====
-- `block_on` comes to an end.
use onlyio.Base.{
  ℕ, zero, suc, ◌+◌, ◌-◌, ◌<◌, ◌≡◌, refl, ap, ◌∙◌, inl, inr, Bool, true, false, Option, some, arith,
  length, length-append, Bool-cases, Option-cases, Outcome, ok, Yields, Yields.gives, Yields.fails,
  Yields-bind, Ensures, Ensures-Yields, if◌then◌else◌, List, [], ◌∷◌, ◌++◌,
}
use onlyio.Sqe.{Entry}
use onlyio.UserData.{CqeEntry}
use onlyio.Slab.{is_task}
use onlyio.Runtime.{Runtime}
use onlyio.Runtime.Loop.{
  Turn, Turn.finished, Turn.io_error, Turn.again, Turn.out_of_fuel, submit_and_wait, collect, turn,
  loop, block_on,
}
use onlyio.Runtime.Loop.Quiet.{list_cases, drain-quiet}
use onlyio.Runtime.Polls.{Lawful}
use onlyio.Runtime.Turns.{Kernel, Answers, Answers.nothing, Answers.answers}
use onlyio.Runtime.Turns.Ends.{Ends}
use onlyio.Runtime.Setup.Ready.{Idle, block_on-safe}
use onlyio.Runtime.Cost.{Thrifty}
use onlyio.Runtime.Cost.Weight.{Weighs, ranks, Within-zero}
use onlyio.Runtime.Cost.Turns.{spawn-Weighs, handle_all-Lasts, check_free-Lasts}

-- No completion has the flag that others of its entry follow.
abbrev pub Last : (ℕ → Bool) → List CqeEntry → Type 0
Last more [] = Unit {0}
Last more (c ∷ cs) = (more c.flags ≡ false) × Last more cs

-- Every such completion takes one entry.
answers-length :
    (more : ℕ → Bool) {flight flight' : List Entry} {cs : List CqeEntry}
    → Answers more flight cs flight'
    → Last more cs
    → length flight' + length cs ≡ length flight
answers-length more nothing last = omega arith
answers-length more {flight} (answers us vs e c there same rest) (last, others) = omega (
  arith,
  answers-length more rest others,
  ap (λ b. length (if b then flight else us ++ vs)) last,
  ap length there,
  length-append us (e ∷ vs),
  length-append us vs,
)

module _ {F K : Type 0} where
  -- The last turn has been taken, or the system call has failed.
  abbrev pub Over : Turn K (Runtime F) → Type 0
  Over (finished k rt) = Unit {0}
  Over (again k rt) = ⊥
  Over (out_of_fuel k rt) = ⊥
  Over (io_error k rt) = Unit {0}

module _ {F : Type 0} (rank : F → ℕ) (poll_fn : F → Runtime F → Outcome (F × Runtime F))
    (thrifty : Thrifty rank poll_fn) (more : ℕ → Bool) {K : Type 0}
    (push_multiple : K → List Entry → Option K) (wait : K → Option K)
    (completion : K → List CqeEntry × K) (kernel : Kernel more push_multiple wait completion)
    (single : (k : K) → Last more (completion k).0) where
  -- Less than `m` entries are in flight, wait, or can still be queued; and no waker waits.
  abbrev Below : ℕ → K → Runtime F → Type 0
  Below m k rt =
      (bound : ℕ) × Weighs rank bound rt
      × (rt.wake_list ≡ [])
      × (bound + length (kernel.flight k) < m)

  abbrev Next : ℕ → Turn K (Runtime F) → Type 0
  Next m (finished k rt) = Unit {0}
  Next m (again k rt) = Below m k rt
  Next m (out_of_fuel k rt) = ⊥
  Next m (io_error k rt) = Unit {0}

  -- All entries have gone to the kernel.
  submitted :
      (m : ℕ) (k k₁ k₂ : K) (rt : Runtime F)
      → push_multiple k rt.pending ≡ some k₁
      → wait k₁ ≡ some k₂
      → Below m k rt
      → Below m k₂ (record rt { pending = [] })
  submitted m k k₁ k₂ rt pushed waited (bound, w, quiet, l) = (
    bound - length rt.pending,
    λ b. omega (arith, w b),
    quiet,
    omega (
      arith,
      w 0,
      ap length (kernel.waits k₁ k₂ waited ∙ kernel.pushes k k₁ rt.pending pushed),
      length-append (kernel.flight k) rt.pending,
    ),
  )

  collect-Next :
      (m wakes : ℕ) (k : K) (rt : Runtime F)
      → Below (suc m) k rt
      → Yields (Next m) (collect poll_fn more push_multiple wait completion wakes k rt)
  unfolding collect
  collect-Next m wakes k rt (bound, w, quiet, l) = elim (list_cases (completion k).0) [
    | inl none_yet ↦ rw (collect, none_yet) fails
    | inr (e, es, some_now) ↦
        rw (collect, some_now)
          (Yields-bind (handle_all-Lasts rank poll_fn thrifty more (e ∷ es) rt) λ handled h.
            rw (drain-quiet poll_fn more wakes handled (h.quiet ∙ quiet)) (
              Yields-bind (check_free-Lasts rank handled) λ c free. elim (Bool-cases c.0) [
                | inl t ↦ rw t (gives tt)
                | inr f ↦ rw f (
                    gives (
                      bound,
                      free.0.weighs bound (h.weighs bound w),
                      free.0.quiet ∙ h.quiet ∙ quiet,
                      omega (
                        arith,
                        answers-length more (kernel.completes k) (single k),
                        ap length some_now,
                      ),
                    ))
              ]))
  ]

  turn-Next :
      (m wakes : ℕ) (k : K) (rt : Runtime F)
      → Below (suc m) k rt
      → Yields (Next m) (turn poll_fn more push_multiple wait completion wakes k rt)
  unfolding turn submit_and_wait
  turn-Next m wakes k rt few = elim (Option-cases (push_multiple k rt.pending)) [
    | inl full ↦ rw (turn, submit_and_wait, full) fails
    | inr (k₁, pushed) ↦ elim (Option-cases (wait k₁)) [
      | inl failed ↦ rw (turn, submit_and_wait, pushed, failed) (gives tt)
      | inr (k₂, waited) ↦
          let (bound, w, quiet, l) = submitted (suc m) k k₁ k₂ rt pushed waited few in
          rw (turn, submit_and_wait, pushed, waited)
            (Yields-bind (check_free-Lasts rank (record rt { pending = [] })) λ c free.
              elim (Bool-cases c.0) [
                | inl t ↦ rw t (gives tt)
                | inr f ↦ rw f (
                    collect-Next m wakes k₂ c.1
                      (bound, free.0.weighs bound w, free.0.quiet ∙ quiet, l))
              ])
    ]
  ]

  go_on :
      (turns wakes : ℕ) (t : Turn K (Runtime F))
      → Next turns t
      → ((k : K) (rt : Runtime F)
          → Below turns k rt
          → Yields Over (loop poll_fn more push_multiple wait completion turns wakes k rt))
      → Yields Over (elim t [
        | again k' rt' ↦ loop poll_fn more push_multiple wait completion turns wakes k' rt'
        | finished k' rt' ↦ ok (Turn.finished k' rt')
        | io_error k' rt' ↦ ok (Turn.io_error k' rt')
        | out_of_fuel k' rt' ↦ ok (Turn.out_of_fuel k' rt')
      ])
  go_on turns wakes (again k' rt') h on = on k' rt' h
  go_on turns wakes (finished k' rt') h on = gives tt
  go_on turns wakes (io_error k' rt') h on = gives tt
  go_on turns wakes (out_of_fuel k' rt') h on = absurd h

  loop-Over :
      (turns wakes : ℕ) (k : K) (rt : Runtime F)
      → Below turns k rt
      → Yields Over (loop poll_fn more push_multiple wait completion turns wakes k rt)
  unfolding loop
  loop-Over zero wakes k rt few = absurd (omega arith)
  loop-Over (suc turns) wakes k rt few =
      Yields-bind (turn-Next turns wakes k rt few)
        λ t h. go_on turns wakes t h λ k' rt' b. loop-Over turns wakes k' rt' b

  pub block_on-Over :
      (turns wakes p size align : ℕ) (future : F) (k : K) (rt : Runtime F)
      → Idle rt
      → kernel.flight k ≡ []
      → rank future < turns
      → Yields Over
          (block_on poll_fn more push_multiple wait completion turns wakes p size align future k rt)
  unfolding block_on
  block_on-Over turns wakes p size align future k rt idle none_yet enough =
      Yields-bind
        (spawn-Weighs rank poll_fn thrifty p size align 0 future rt (idle.unused p) (
          Within-zero (ranks rank rt.store) (length rt.pending) (λ q. rw (idle.unused q) refl)
            (ap length idle.idle)))
        λ spawned h. Yields-bind (check_free-Lasts rank spawned) λ c free. elim (Bool-cases c.0) [
          | inl t ↦ rw t (gives tt)
          | inr f ↦ rw f (
              loop-Over turns wakes k c.1 (
                0 + rank future,
                free.0.weighs (0 + rank future) h.0,
                free.0.quiet ∙ h.1 ∙ idle.balanced.2,
                omega (arith, ap length none_yet),
              ))
        ]

  pub block_on-finishes :
      (law : Lawful poll_fn) (turns wakes p size align : ℕ) (future : F) (k : K) (rt : Runtime F)
      → Idle rt
      → kernel.flight k ≡ []
      → is_task p ≡ true
      → rank future < turns
      → Ensures
          (λ t. Ends poll_fn law more push_multiple wait completion kernel t × Over t)
          (block_on poll_fn more push_multiple wait completion turns wakes p size align future k rt)
  block_on-finishes law turns wakes p size align future k rt idle none_yet even enough =
      Ensures-Yields
        (block_on-safe poll_fn law more push_multiple wait completion kernel turns wakes p size
          align future k rt idle none_yet even)
        (block_on-Over turns wakes p size align future k rt idle none_yet enough)
