-- ===== src/Runtime/Multiple.antt =====
-- `send_multiple_write` of src/runtime.rs: one entry for each descriptor, told apart by `response_gen`.
use onlyio.Base.{
  ℕ, zero, suc, ◌+◌, ◌-◌, ◌%◌, ◌^◌, ◌<◌, ◌≡◌, refl, sym, ap, ◌∙◌, List, [], ◌∷◌, ◌++◌, append-nil,
  append_assoc, some, ok, length, Option, none, get_elem?, set, get_elem?-set_self, lt-length,
  arith, ne→==, le→ltb,
}
use native.Mathlib.Nat.{mod-eq_of_lt}
use onlyio.Sqe.{Entry, write_fixed}
use onlyio.UserData.{TaskInfo, UserDataPayload, into_user_data, info_payload, current_udata}
use onlyio.Base.Int.{ℤ}
use onlyio.UserData.RoundTrip.{InRange}
use onlyio.Runtime.Send.{completed, completed_nb}
use onlyio.Task.{
  RawTask, add_rc, normal, expired, evaluate, evaluate_syscall_nb, augmente_syscall_nb,
}
use onlyio.Task.Call.{augmente-Expires, evaluate_iff}
use onlyio.Task.Count.{add_rc_lem}
use onlyio.Task.Store.{write_cell}
use onlyio.Slab
use onlyio.BufPool.{BufPool, WBuffer, write}
use onlyio.BufPool.Invariant.{WellFormed, HasRc, with_rc}
use onlyio.BufPool.Handles.{IsHandle, drop-Drops, clone_lem, on_write_cqe_lem}
use onlyio.Runtime.{Runtime, push_writes, send_multiple_write}

set-set_self : (xs : List ℕ) (i w : ℕ) {v : ℕ} → get_elem? xs i ≡ some v → set (set xs i w) i v ≡ xs
set-set_self [] i w e = absurd (cc)
set-set_self (x ∷ xs) zero w e = ground arith
set-set_self (x ∷ xs) (suc i) w e = ap (λ ys. x ∷ ys) (set-set_self xs i w e)

-- The entries for these descriptors, numbered from `idx` on
abbrev pub entries : WBuffer → ℕ → UserDataPayload → List ℕ → ℕ → List Entry
entries buffer len payload [] idx = []
entries buffer len payload (fd ∷ fds) idx =
    record {
      op = write_fixed fd buffer.ptr len (buffer.abs_idx % 2 ^ 16);
      user_data = into_user_data (record payload { response_gen = idx % 2 ^ 16 });
    }
    ∷ entries buffer len payload fds (idx + 1)

-- A clone of a handle that the entry it makes consumes leaves the pool as it was.
write_cloned :
    (buffer : WBuffer) (len rel v : ℕ) (p : BufPool) (fd udata : ℕ)
    → IsHandle p buffer rel
    → HasRc p rel v
    → 0 < v
    → write (with_rc p rel (v + 1) p.write_free) buffer fd len udata
      ≡ ok (
        record { op = write_fixed fd buffer.ptr len (buffer.abs_idx % 2 ^ 16); user_data = udata },
        p,
      )
unfolding write
write_cloned buffer len rel v p fd udata i h pos = rw (
  i,
  on_write_cqe_lem (with_rc p rel (v + 1) p.write_free) rel (v + 1)
      (get_elem?-set_self p.write_rc rel (v + 1) (lt-length p.write_rc rel h)) (omega arith),
  ne→== (v + 1 - 1) 0 (omega arith),
  set-set_self p.write_rc rel (v + 1) {v = v + 1 - 1} (h ∙ ap some (omega arith)),
)

module _ {F : Type 0} (buffer : WBuffer) (len rel v : ℕ) where
  push_writes_lem :
      (payload : UserDataPayload) (fds : List ℕ) (idx : ℕ) (rt : Runtime F)
      → IsHandle rt.buffer buffer rel
      → HasRc rt.buffer rel v
      → 0 < v
      → v + 1 < 2 ^ 32
      → push_writes fds idx buffer len payload rt
        ≡ ok (record rt { pending = rt.pending ++ entries buffer len payload fds idx })
  unfolding push_writes
  push_writes_lem payload [] idx rt i h pos fits = rw append-nil
  push_writes_lem payload (fd ∷ fds) idx rt i h pos fits = rw (
    clone_lem rt.buffer buffer rel v i h pos fits,
    write_cloned buffer len rel v rt.buffer fd
        (into_user_data (record payload { response_gen = idx % 2 ^ 16 })) i h pos,
    push_writes_lem payload fds (idx + 1)
        (record rt { pending = rt.pending ++ entries buffer len payload (fd ∷ []) idx }) i h pos
        fits,
    append_assoc rt.pending,
  )

  -- A write to between 1 and 0x7fff descriptors, from a handle of a slot with `v` handles, queues one
  -- entry for each in their order, numbered from 0 by `response_gen`; adds their number to the count
  -- of the task, if that fits; and leaves the pool well formed with one handle of the slot less.
  pub send_multiple_write-Queues :
      (fds : List ℕ) (rt : Runtime F) (p : ℕ) (t : RawTask F)
      → WellFormed rt.buffer
      → IsHandle rt.buffer buffer rel
      → HasRc rt.buffer rel v
      → 0 < v
      → v + 1 < 2 ^ 32
      → 0 < length fds
      → length fds < 0x8000
      → Slab.index rt.tasks rt.current.tag.task_idx ≡ ok p
      → rt.store.cells p ≡ some t
      → t.ref_counter + length fds < 2 ^ 16
      → (p' : BufPool) × (send_multiple_write fds buffer len rt
          ≡ ok (record rt {
            pending = rt.pending ++ entries buffer len (info_payload rt.current) fds 0;
            store =
                write_cell rt.store p
                  (some (record t { ref_counter = t.ref_counter + length fds }));
            buffer = p';
          }))
        × WellFormed p'
        × HasRc p' rel (v - 1)
        × (p'.write_rc ≡ set rt.buffer.write_rc rel (v - 1))
  unfolding send_multiple_write
  send_multiple_write-Queues fds rt p t wf i h pos fits some_fd few indexed live room =
      let d = drop-Drops rt.buffer buffer rel v wf i h pos in
      (
        d.0,
        rw (
          push_writes_lem (info_payload rt.current) fds 0 rt i h pos fits,
          indexed,
          live,
          mod-eq_of_lt {n = length fds} {m = 2 ^ 16} (omega arith),
          added,
          d.1,
        ),
        d.2,
        d.3,
        d.5,
      )
    where
      added : add_rc t (length fds) ≡ ok (record t { ref_counter = t.ref_counter + length fds })
      added = rw (
        add_rc_lem t (length fds) (omega arith) (omega arith),
        le→ltb 0xffff (t.ref_counter + length fds) (omega arith),
        mod-eq_of_lt {n = length fds} {m = 0x8000} few,
        ne→== (length fds) 0 (omega arith),
      )

entry_udata :
    (buffer : WBuffer) (len : ℕ) (payload : UserDataPayload) (fds : List ℕ) (idx k : ℕ) {e : Entry}
    → get_elem? (entries buffer len payload fds idx) k ≡ some e
    → e.user_data ≡ into_user_data (record payload { response_gen = (idx + k) % 2 ^ 16 })
entry_udata buffer len payload [] idx k e = absurd (cc)
entry_udata buffer len payload (fd ∷ fds) idx zero {e} h =
    ap (λ (o : Option Entry). elim o [ some x ↦ x.user_data | none ↦ 0 ]) (sym h)
    ∙ ap (λ n. into_user_data (record payload { response_gen = n % 2 ^ 16 })) (omega arith)
entry_udata buffer len payload (fd ∷ fds) idx (suc k) h =
    entry_udata buffer len payload fds (idx + 1) k h
    ∙ ap (λ n. into_user_data (record payload { response_gen = n % 2 ^ 16 })) (omega arith)

-- The completion of any of the entries carries the number of the call.
completed_entry :
    (info : TaskInfo) (buffer : WBuffer) (len : ℕ) (fds : List ℕ) (k : ℕ) {e : Entry} (result : ℤ)
    (flags : ℕ)
    → InRange (info_payload info)
    → get_elem? (entries buffer len (info_payload info) fds 0) k ≡ some e
    → (completed e.user_data result flags).tag.syscall_nb ≡ info.tag.syscall_nb
unfolding info_payload current_udata
completed_entry info buffer len fds k result flags r h =
    ap (λ u. (completed u result flags).tag.syscall_nb)
      (entry_udata buffer len (info_payload info) fds 0 k h)
    ∙ completed_nb (record info { response_gen = (0 + k) % 2 ^ 16 }) result flags
        (record { idx_in = r.idx_in; gen_in = omega arith; nb_in = r.nb_in })

evaluate_own : (n : ℕ) → n < 0x7fff → evaluate n n ≡ normal
evaluate_own n h = ((evaluate_iff n n (omega arith) (omega arith)).0).1 (refl, omega arith)

-- Of the entries of a write to several descriptors by a task that waits without the multishot bit, for
-- a number below the last rank: the completion of whichever comes first is answered `Normal`. The task
-- then goes on to its next number, as `handle_cqe_entry` has it on `Normal`, and the completion of any
-- of the entries is answered `Expired`, so that the future is never polled for it.
pub entries-Expires :
    {F : Type 0} (info : TaskInfo) (t : RawTask F) (buffer : WBuffer) (len : ℕ) (fds : List ℕ)
    (j k : ℕ) {first other : Entry} (result result' : ℤ) (flags flags' : ℕ)
    → InRange (info_payload info)
    → info.tag.syscall_nb ≡ t.syscall_nb
    → t.syscall_nb < 0x7fff
    → get_elem? (entries buffer len (info_payload info) fds 0) j ≡ some first
    → get_elem? (entries buffer len (info_payload info) fds 0) k ≡ some other
    → (t' : RawTask F) × (evaluate_syscall_nb t
          (completed first.user_data result flags).tag.syscall_nb
        ≡ normal)
      × (augmente_syscall_nb t ≡ ok t')
      × (evaluate_syscall_nb t' (completed other.user_data result' flags').tag.syscall_nb ≡ expired)
unfolding evaluate_syscall_nb
entries-Expires info t buffer len fds j k result result' flags flags' r e small at_j at_k =
    let nb = completed_entry info buffer len fds j result flags r at_j ∙ e in
    let nb' = completed_entry info buffer len fds k result' flags' r at_k ∙ e in
    let a =
      augmente-Expires t t.syscall_nb
        (omega (arith, mod-eq_of_lt {n = t.syscall_nb} {m = 0x8000} (omega arith))) (omega arith) in
    (
      a.0,
      ap (evaluate_syscall_nb t) nb ∙ evaluate_own t.syscall_nb small,
      a.1,
      ap (evaluate_syscall_nb a.0) nb' ∙ a.3,
    )
