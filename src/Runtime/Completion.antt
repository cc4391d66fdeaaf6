-- ===== src/Runtime/Completion.antt =====
-- `handle_cqe_entry` on each answer of `evaluate_syscall_nb`.
use onlyio.Base.{
  ℕ, ◌+◌, ◌-◌, ◌^◌, ◌<◌, ◌≡◌, refl, ap, ◌∙◌, ◌⊎◌, inl, inr, Bool, some, Outcome, ok, panics,
  explicit, ◌>>=◌, arith, if◌then◌else◌, eq→==, Bool-cases,
}
use onlyio.UserData.{CqeEntry, from_entry}
use onlyio.Task.{
  RawTask, SyscallNbCompResult, expired, normal, multiple, error, evaluate_syscall_nb,
}
use onlyio.Task.Call.{evaluate_iff}
use onlyio.Task.Store.{write_cell}
use onlyio.Task.Release.{clone-live}
use onlyio.Slab
use onlyio.Runtime.{Runtime}
use onlyio.Runtime.Send.{counted}
use onlyio.Runtime.Dispatch.{
  with_store, with_current, release_handle, poll, dispatch, handle_cqe_entry,
}
use onlyio.Runtime.Handles.{
  release-counted, modify-augmente, settled, release_once, release_twice, next_call_lem,
}

module _ {F : Type 0} (poll_fn : F → Runtime F → Outcome (F × Runtime F)) (more : ℕ → Bool)
    (entry : CqeEntry) (rt : Runtime F) (p : ℕ) (t : RawTask F)
    (indexed : Slab.index rt.tasks (from_entry entry).tag.task_idx ≡ ok p)
    (live : rt.store.cells p ≡ some t) (referred : 0 < t.ref_counter)
    (room : t.ref_counter < 0xffff) where
  -- The runtime while the handler holds its clone of the task
  abbrev held : Runtime F
  held = with_store rt (write_cell rt.store p (some (counted t)))

  handle_lem :
      (a : SyscallNbCompResult)
      → evaluate_syscall_nb t (from_entry entry).tag.syscall_nb ≡ a
      → handle_cqe_entry poll_fn more entry rt ≡ (
          dispatch poll_fn a p (from_entry entry) held >>= λ polled.
          (if more entry.flags then ok polled else release_handle p polled) >>= release_handle p)
  unfolding handle_cqe_entry evaluate_syscall_nb
  handle_lem a e = rw (indexed, clone-live p rt.store live room, eq→== p p refl, e)

  release-held : release_handle p held ≡ ok rt
  unfolding release_handle
  release-held = rw (release-counted p rt.store t live referred room)

  -- For a live task at the slab index of the completion, with a count from 1 to 0xfffe:
  -- a stale completion, of a lower rank than the task's number, polls nothing: with `more` the runtime
  -- is as it was, and without it the task loses the one reference that the call had.
  pub handle-expired :
      evaluate_syscall_nb t (from_entry entry).tag.syscall_nb ≡ expired
      → handle_cqe_entry poll_fn more entry rt
        ≡ (if more entry.flags then ok rt else release_handle p rt)
  unfolding dispatch
  handle-expired e = rw (handle_lem expired e) (elim (Bool-cases (more entry.flags)) [
    | inl b ↦ rw (b, release-held)
    | inr b ↦ rw (b, release-held)
  ])

  -- For a live task at the slab index of the completion, with a count from 1 to 0xfffe:
  -- a completion with a number that the task does not wait for yet, or with the wrong multishot bit,
  -- panics.
  pub handle-error :
      evaluate_syscall_nb t (from_entry entry).tag.syscall_nb ≡ error
      → handle_cqe_entry poll_fn more entry rt ≡ panics explicit
  unfolding dispatch
  handle-error e = rw (handle_lem error e)

  -- The runtime when the future is polled: for `Normal` the task and the tag have gone on to the next
  -- number, for `Multiple` they are unchanged.
  abbrev pub started : SyscallNbCompResult → Runtime F
  started normal =
      with_current
        (with_store rt (
          write_cell rt.store p
            (some (record t { ref_counter = t.ref_counter + 1; syscall_nb = t.syscall_nb + 1 }))))
        (record (from_entry entry) {
          tag = record {
            task_idx = (from_entry entry).tag.task_idx;
            syscall_nb = t.syscall_nb + 1;
          };
        })
  started _ = with_current held (from_entry entry)

  dispatch-normal :
      t.syscall_nb < 2 ^ 16
      → (from_entry entry).tag.syscall_nb < 2 ^ 16
      → evaluate_syscall_nb t (from_entry entry).tag.syscall_nb ≡ normal
      → dispatch poll_fn normal p (from_entry entry) held ≡ poll poll_fn p (started normal)
  unfolding dispatch evaluate_syscall_nb
  dispatch-normal ht hn e = rw (
    next_call_lem (from_entry entry) t.syscall_nb own.0 (omega (arith, own.1)),
    modify-augmente rt.store p t own.1,
  )
    where
      own : ((from_entry entry).tag.syscall_nb ≡ t.syscall_nb) × (t.syscall_nb < 0x8000)
      own = (evaluate_iff t.syscall_nb (from_entry entry).tag.syscall_nb ht hn).0.0 e

  dispatch-multiple :
      dispatch poll_fn multiple p (from_entry entry) held ≡ poll poll_fn p (started multiple)
  unfolding dispatch
  dispatch-multiple = refl

  dispatch-started :
      (a : SyscallNbCompResult)
      → (a ≡ normal) ⊎ (a ≡ multiple)
      → t.syscall_nb < 2 ^ 16
      → (from_entry entry).tag.syscall_nb < 2 ^ 16
      → evaluate_syscall_nb t (from_entry entry).tag.syscall_nb ≡ a
      → dispatch poll_fn a p (from_entry entry) held ≡ poll poll_fn p (started a)
  dispatch-started normal k ht hn e = dispatch-normal ht hn e
  dispatch-started multiple k ht hn e = dispatch-multiple
  dispatch-started expired (inl k) ht hn e = absurd (cc)
  dispatch-started expired (inr k) ht hn e = absurd (cc)
  dispatch-started error (inl k) ht hn e = absurd (cc)
  dispatch-started error (inr k) ht hn e = absurd (cc)

  poll-started :
      (a : SyscallNbCompResult) (f' : F) (after : Runtime F) (t' : RawTask F)
      → poll_fn t.future (started a) ≡ ok (f', after)
      → after.store.cells p ≡ some t'
      → poll poll_fn p (started a)
        ≡ ok (with_store after (write_cell after.store p (some (record t' { future = f' }))))
  unfolding poll
  poll-started normal f' after t' polled cell = rw (eq→== p p refl, polled, cell)
  poll-started multiple f' after t' polled cell = rw (eq→== p p refl, polled, cell)
  poll-started expired f' after t' polled cell = rw (eq→== p p refl, polled, cell)
  poll-started error f' after t' polled cell = rw (eq→== p p refl, polled, cell)

  -- For a live task at the slab index of the completion, with a count from 1 to 0xfffe:
  -- a completion that is the task's own polls its future once. If the poll leaves the task alive with
  -- `j` references more than the handler holds, then after the handler the count is what it was before
  -- the completion and `j` more; less one for the completion itself, unless `more` says that others
  -- follow. At 0 the future is dropped, the block freed and the slab index put on the free list.
  pub handle-Settles :
      (a : SyscallNbCompResult) (f' : F) (after : Runtime F) (t' : RawTask F) (j : ℕ)
      → (a ≡ normal) ⊎ (a ≡ multiple)
      → t.syscall_nb < 2 ^ 16
      → (from_entry entry).tag.syscall_nb < 2 ^ 16
      → evaluate_syscall_nb t (from_entry entry).tag.syscall_nb ≡ a
      → poll_fn t.future (started a) ≡ ok (f', after)
      → after.store.cells p ≡ some t'
      → t'.ref_counter ≡ t.ref_counter + 1 + j
      → handle_cqe_entry poll_fn more entry rt
        ≡ ok (
            settled p
              (if more entry.flags then t.ref_counter + j else t.ref_counter + j - 1)
              f'
              t'
              after)
  handle-Settles a f' after t' j k ht hn e polled cell c =
      rw (handle_lem a e, dispatch-started a k ht hn e, poll-started a f' after t' polled cell)
        (elim (Bool-cases (more entry.flags)) [
          | inl b ↦ rw b (
              release_once p f' t' after (omega arith)
              ∙ ap (λ m. ok (settled p m f' t' after)) (omega arith))
          | inr b ↦ rw b (
              release_twice p f' t' after (omega arith)
              ∙ ap (λ m. ok (settled p m f' t' after)) (omega arith))
        ])
