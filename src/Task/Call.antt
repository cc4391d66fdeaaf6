-- ===== src/Task/Call.antt =====
-- The number of the call that a task waits for, and what it says of an incoming completion.
use onlyio.Base.{ℕ, ◌+◌, ◌^◌, ◌≤◌, ◌<◌, ◌≡◌, refl, ◌≢◌, ◌↔◌, ◌⊎◌, ok, arith}
use onlyio.Words.{rank}
use onlyio.UserData.Tags
use onlyio.UserData.Tags.{Tag}
use onlyio.Task.{
  RawTask, expired, normal, multiple, error, evaluate, evaluate_syscall_nb, augmente_syscall_nb,
}

-- On `u16` words, `evaluate_syscall_nb` answers `Normal` exactly for the task's own number without
-- the multishot bit, `Multiple` exactly for its own number with it, `Expired` exactly for a lower
-- rank, and `Error` exactly for a higher rank or the same rank with the other bit.
pub evaluate_iff :
    (stored incoming : ℕ)
    → stored < 2 ^ 16
    → incoming < 2 ^ 16
    → ((evaluate stored incoming ≡ normal) ↔ ((incoming ≡ stored) × (stored < 0x8000)))
      × ((evaluate stored incoming ≡ multiple) ↔ ((incoming ≡ stored) × (0x8000 ≤ stored)))
      × ((evaluate stored incoming ≡ expired) ↔ (rank incoming < rank stored))
      × ((evaluate stored incoming ≡ error)
          ↔ ((rank stored < rank incoming) ⊎ ((rank incoming ≡ rank stored) × (incoming ≢ stored))))
unfolding evaluate
evaluate_iff stored incoming hs hi = (
  (λ e. ground arith, λ e. ground arith),
  (λ e. ground arith, λ e. ground arith),
  (λ e. ground arith, λ e. ground arith),
  (λ e. ground arith, λ e. ground arith),
)

module _ {F : Type 0} where
  -- A task that has taken a completion by `augmente_syscall_nb` waits without the multishot bit for
  -- the next number, and calls every completion with the number that it had, or a lower one of
  -- either kind, expired; if the number has not reached the last rank, 0x7fff.
  pub augmente-Expires :
      (t : RawTask F) (incoming : ℕ)
      → rank t.syscall_nb < 0x7fff
      → rank incoming ≤ rank t.syscall_nb
      → (t' : RawTask F) × (augmente_syscall_nb t ≡ ok t')
        × (t'.syscall_nb ≡ rank t.syscall_nb + 1)
        × (evaluate_syscall_nb t' incoming ≡ expired)
  unfolding augmente_syscall_nb evaluate_syscall_nb
  augmente-Expires t incoming h k =
      (record t { syscall_nb = rank t.syscall_nb + 1 }, ground arith, refl, ground arith)

  -- From the same number: at the last rank the task's number goes to 0x8000, which has the multishot bit, while that of
  -- the tag goes to 0; at every other rank the two agree.
  pub augmente_agree :
      (t : RawTask F) (g : Tag)
      → g.syscall_nb ≡ t.syscall_nb
      → (t' : RawTask F) × (augmente_syscall_nb t ≡ ok t')
        × ((t'.syscall_nb ≡ (Tags.augmente_syscall_nb g).syscall_nb) ↔ (rank t.syscall_nb ≢ 0x7fff))
  unfolding augmente_syscall_nb Tags.augmente_syscall_nb
  augmente_agree t g e = (
    record t { syscall_nb = rank t.syscall_nb + 1 },
    ground arith,
    (λ h. ground arith, λ h. ground arith),
  )

  -- After the last rank a completion of the number just taken is no longer expired: it is an error.
  pub augmente_wrap :
      (t : RawTask F)
      → t.syscall_nb ≡ 0x7fff
      → (t' : RawTask F) × (augmente_syscall_nb t ≡ ok t') × (evaluate_syscall_nb t' 0x7fff ≡ error)
  unfolding augmente_syscall_nb evaluate_syscall_nb
  augmente_wrap t e = (record t { syscall_nb = 0x8000 }, ground arith, refl)
