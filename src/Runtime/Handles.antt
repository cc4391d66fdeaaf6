-- ===== src/Runtime/Handles.antt =====
-- Handles of a task that the runtime holds for a while: the clone of a completion, and the counts that
-- are left when they are released.
use onlyio.Base.{
  ℕ, ◌+◌, ◌-◌, ◌^◌, ◌<◌, ◌≡◌, refl, sym, ap, ◌∙◌, inl, inr, Option, none, some, Outcome, ok, ◌>>=◌,
  arith, if◌then◌else◌, lt→ltb, eq→==, ne→==, ◌==◌, ==→eq, ==_false→ne, Bool-cases,
}
use native.Mathlib.Nat.{mod-eq_of_lt}
use onlyio.UserData.{TaskInfo}
use onlyio.Task.{RawTask, augmente_syscall_nb}
use onlyio.Task.Store.{Store, write_cell, freed, release, modify}
use onlyio.Task.Release.{
  clone-live, release-more, release-last, release-clone, cell-write_cell, write_cell-write_cell,
  update-update,
}
use onlyio.Runtime.{Runtime}
use onlyio.Runtime.Send.{counted}
use onlyio.Runtime.Dispatch.{with_store, release_handle, next_call}

module _ {F : Type 0} where
  pub release-counted :
      (p : ℕ) (s : Store F) (t : RawTask F)
      → s.cells p ≡ some t
      → 0 < t.ref_counter
      → t.ref_counter < 0xffff
      → release p (write_cell s p (some (counted t))) ≡ ok (some t.ref_counter, s)
  release-counted p s t e l h =
      sym (ap (λ (m : Outcome (Store F)). m >>= release p) (clone-live p s e h))
      ∙ release-clone p s t e l h

  -- The header of a task that waits without the multishot bit goes on to the next number.
  pub modify-augmente :
      (s : Store F) (p : ℕ) (t : RawTask F)
      → t.syscall_nb < 0x8000
      → modify augmente_syscall_nb p (write_cell s p (some (counted t)))
        ≡ ok (
            write_cell s p
              (some (record t { ref_counter = t.ref_counter + 1; syscall_nb = t.syscall_nb + 1 })))
  unfolding augmente_syscall_nb
  modify-augmente s p t h =
      rw
        (
          eq→== p p refl,
          mod-eq_of_lt {n = t.syscall_nb} {m = 0x8000} h,
          lt→ltb (t.syscall_nb + 1) (2 ^ 16) (omega arith),
        )
        (ap ok (write_cell-write_cell s p _ _))

module _ {F : Type 0} (p : ℕ) where
  -- What is left of the task when `left` of its references are
  abbrev pub settled : ℕ → F → RawTask F → Runtime F → Runtime F
  settled left f' t' after = with_store after (
      if left == 0
      then freed p (record t' { future = f' }) after.store
      else write_cell after.store p (some (record t' { future = f'; ref_counter = left })))

  -- The runtime right after a poll, with the handler's references not yet released
  abbrev pub polled_by : F → RawTask F → Runtime F → Runtime F
  polled_by f' t' after =
      with_store after (write_cell after.store p (some (record t' { future = f' })))

  freed-write_cell :
      (s : Store F) (c : Option (RawTask F)) (u : RawTask F)
      → freed p u (write_cell s p c) ≡ freed p u s
  freed-write_cell s c u =
      ap (λ f. record (freed p u s) { cells = f }) (update-update s.cells p c none)

  pub release_once :
      (f' : F) (t' : RawTask F) (after : Runtime F)
      → 0 < t'.ref_counter
      → release_handle p (polled_by f' t' after) ≡ ok (settled (t'.ref_counter - 1) f' t' after)
  unfolding release_handle
  release_once f' t' after h = elim (Bool-cases (t'.ref_counter - 1 == 0)) [
    | inl last ↦ rw last (
        rw
          (release-last p (write_cell after.store p (some (record t' { future = f' })))
            {t = record t' { future = f' }} (cell-write_cell after.store p _)
            (omega (arith, ==→eq _ _ last)))
          (ap (λ s. ok (with_store after s))
            (freed-write_cell after.store _ (record t' { future = f' }))))
    | inr less ↦ rw less (
        rw
          (release-more p (write_cell after.store p (some (record t' { future = f' })))
            {t = record t' { future = f' }} (cell-write_cell after.store p _)
            (omega (arith, ==_false→ne _ _ less)))
          (ap (λ s. ok (with_store after s)) (write_cell-write_cell after.store p _ _)))
  ]

  pub release_twice :
      (f' : F) (t' : RawTask F) (after : Runtime F)
      → 1 < t'.ref_counter
      → (release_handle p (polled_by f' t' after) >>= release_handle p)
        ≡ ok (settled (t'.ref_counter - 1 - 1) f' t' after)
  release_twice f' t' after h =
      rw (release_once f' t' after (omega arith), ne→== (t'.ref_counter - 1) 0 (omega arith))
        (release_once f' (record t' { ref_counter = t'.ref_counter - 1 }) after (omega arith))

pub next_call_lem :
    (info : TaskInfo) (nb : ℕ)
    → info.tag.syscall_nb ≡ nb
    → nb < 0xffff
    → next_call info
      ≡ ok (record info { tag = record { task_idx = info.tag.task_idx; syscall_nb = nb + 1 } })
next_call_lem info nb e h = rw (e, lt→ltb (nb + 1) (2 ^ 16) (omega arith))
