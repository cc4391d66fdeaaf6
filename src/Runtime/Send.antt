-- ===== src/Runtime/Send.antt =====
-- What the queued calls do, and how the task answers their completions.
use onlyio.Base.{
  ℕ, ◌+◌, ◌^◌, ◌<◌, ◌≡◌, refl, ap, ◌∙◌, true, [], ◌∷◌, ◌++◌, some, ok, arith, if◌then◌else◌, ltb,
  lt→ltb,
}
use onlyio.Words.{rank, set_multiple}
use onlyio.Base.Int.{ℤ}
use onlyio.Sqe.{Op, write_fixed}
use onlyio.UserData.{TaskInfo, current_udata, from_entry, set_current_task_multiple, info_payload}
use onlyio.UserData.RoundTrip.{InRange, from_entry-current_udata}
use onlyio.Task.{RawTask, normal, multiple, error, evaluate_syscall_nb, evaluate, set_multishot}
use onlyio.Task.Store.{write_cell}
use onlyio.Task.Count.{inc_rc_lem}
use onlyio.Slab
use onlyio.Runtime.{Runtime, send, send_multishot, send_commit_write}

-- What the runtime makes of a completion with the given `user_data`
abbrev pub completed : ℕ → ℤ → ℕ → TaskInfo
completed u result flags = from_entry (record { user_data = u; result = result; flags = flags })

pub completed_nb :
    (info : TaskInfo) (result : ℤ) (flags : ℕ)
    → InRange (info_payload info)
    → (completed (current_udata info) result flags).tag.syscall_nb ≡ info.tag.syscall_nb
completed_nb info result flags r =
    ap (λ (x : TaskInfo). x.tag.syscall_nb) (from_entry-current_udata info result flags r)

completed_nb_multiple :
    (info : TaskInfo) (result : ℤ) (flags : ℕ)
    → InRange (info_payload info)
    → (completed (current_udata (set_current_task_multiple true info)) result flags).tag.syscall_nb
      ≡ set_multiple info.tag.syscall_nb
completed_nb_multiple info result flags r =
    completed_nb (set_current_task_multiple true info) result flags (in_range info r) ∙ flagged info
  where
    in_range :
        (info : TaskInfo)
        → InRange (info_payload info)
        → InRange (info_payload (set_current_task_multiple true info))
    in_range info r =
        unfold info_payload set_current_task_multiple in
        (record { idx_in = r.idx_in; gen_in = r.gen_in; nb_in = omega arith })

    flagged :
        (info : TaskInfo)
        → (set_current_task_multiple true info).tag.syscall_nb ≡ set_multiple info.tag.syscall_nb
    flagged info = unfold set_current_task_multiple in refl

pub evaluate_self :
    (n : ℕ) → n < 2 ^ 16 → evaluate n n ≡ (if ltb n 0x8000 then normal else multiple)
unfolding evaluate
evaluate_self n h = ground arith

evaluate-set_multiple :
    (n : ℕ)
    → n < 2 ^ 16
    → (evaluate (set_multiple n) (set_multiple n) ≡ multiple)
      × (evaluate n (set_multiple n) ≡ (if ltb n 0x8000 then error else multiple))
unfolding evaluate
evaluate-set_multiple n h = (ground arith, ground arith)

module _ {F : Type 0} where
  -- The task of CURRENT_TASK is live at `p`, has room for one more reference, and the tag carries the
  -- number that the task stores.
  pub record InSync (rt : Runtime F) (p : ℕ) (t : RawTask F) : Type 0 where
    pub indexed : Slab.index rt.tasks rt.current.tag.task_idx ≡ ok p
    pub live : rt.store.cells p ≡ some t
    pub room : t.ref_counter < 0xffff
    pub same : rt.current.tag.syscall_nb ≡ t.syscall_nb
    pub ranged : InRange (info_payload rt.current)

  pub nb_in : (rt : Runtime F) (p : ℕ) (t : RawTask F) → InSync rt p t → t.syscall_nb < 2 ^ 16
  unfolding info_payload
  nb_in rt p t v = omega (arith, v.same, v.ranged.nb_in)

  -- The task with one reference more
  abbrev pub counted : RawTask F → RawTask F
  counted t = record t { ref_counter = t.ref_counter + 1 }

  -- The runtime with the header `t` at `p` and one entry more
  abbrev pub queued : Runtime F → ℕ → RawTask F → Op → ℕ → Runtime F
  queued rt p t op udata = record rt {
    store = write_cell rt.store p (some t);
    pending = rt.pending ++ record { op = op; user_data = udata } ∷ [];
  }

  pub send_lem :
      (op : Op) (rt : Runtime F) (p : ℕ) (t : RawTask F)
      → Slab.index rt.tasks rt.current.tag.task_idx ≡ ok p
      → rt.store.cells p ≡ some t
      → t.ref_counter < 0xffff
      → send op rt ≡ ok (queued rt p (counted t) op (current_udata rt.current))
  unfolding send
  send_lem op rt p t i e h = rw (i, e, inc_rc_lem t (omega arith), lt→ltb t.ref_counter 0xffff h)

  -- A single-shot call of a task in step with CURRENT_TASK queues one entry at the end, adds one to
  -- the task's count and changes nothing else; a completion of that entry is answered as the task's
  -- own: `Normal` if the task waits without the multishot bit, `Multiple` if it has it.
  pub send-Answers :
      (op : Op) (rt : Runtime F) (p : ℕ) (t : RawTask F) (result : ℤ) (flags : ℕ)
      → InSync rt p t
      → (u : ℕ) × (send op rt ≡ ok (queued rt p (counted t) op u))
        × (evaluate_syscall_nb (counted t) (completed u result flags).tag.syscall_nb
            ≡ (if ltb t.syscall_nb 0x8000 then normal else multiple))
  unfolding evaluate_syscall_nb
  send-Answers op rt p t result flags v = (
    current_udata rt.current,
    send_lem op rt p t v.indexed v.live v.room,
    ap (evaluate t.syscall_nb) (completed_nb rt.current result flags v.ranged ∙ v.same)
        ∙ evaluate_self t.syscall_nb (nb_in rt p t v),
  )

  -- A multishot call of a task in step with CURRENT_TASK sets the multishot bit of both, keeping the
  -- rank, adds one to the count and queues one entry; a completion of that entry is answered
  -- `Multiple`.
  pub send_multishot-Answers :
      (op : Op) (rt : Runtime F) (p : ℕ) (t : RawTask F) (result : ℤ) (flags : ℕ)
      → InSync rt p t
      → (u : ℕ) × (send_multishot op rt
          ≡ ok (
              queued
                (record rt { current = set_current_task_multiple true rt.current })
                p
                (counted (set_multishot t))
                op
                u))
        × (rank (counted (set_multishot t)).syscall_nb ≡ rank t.syscall_nb)
        × (evaluate_syscall_nb (counted (set_multishot t)) (completed u result flags).tag.syscall_nb
            ≡ multiple)
  unfolding send_multishot set_multishot set_current_task_multiple evaluate_syscall_nb
  send_multishot-Answers op rt p t result flags v = (
    current_udata (set_current_task_multiple true rt.current),
    rw (
      v.indexed,
      v.live,
      inc_rc_lem (set_multishot t) (omega (arith, v.room)),
      lt→ltb t.ref_counter 0xffff v.room,
    ),
    omega arith,
    ap (evaluate (set_multiple t.syscall_nb))
          (completed_nb_multiple rt.current result flags v.ranged ∙ ap set_multiple v.same)
        ∙ (evaluate-set_multiple t.syscall_nb (nb_in rt p t v)).0,
  )

  -- The write of `commit` sets the multishot bit of CURRENT_TASK and not of the task. For a task that
  -- waits without the bit, as after a single-shot `read`, the completion of the write is answered
  -- `Error`; for one that has it, after a multishot call, `Multiple`.
  pub send_commit_write-Answers :
      (ptr fd len buf_id : ℕ) (rt : Runtime F) (p : ℕ) (t : RawTask F) (result : ℤ) (flags : ℕ)
      → InSync rt p t
      → (u : ℕ) × (send_commit_write ptr fd len buf_id rt
          ≡ ok (
              queued
                (record rt { current = set_current_task_multiple true rt.current })
                p
                (counted t)
                (write_fixed fd ptr len buf_id)
                u))
        × (evaluate_syscall_nb (counted t) (completed u result flags).tag.syscall_nb
            ≡ (if ltb t.syscall_nb 0x8000 then error else multiple))
  unfolding send_commit_write set_current_task_multiple evaluate_syscall_nb
  send_commit_write-Answers ptr fd len buf_id rt p t result flags v = (
    current_udata (set_current_task_multiple true rt.current),
    send_lem (write_fixed fd ptr len buf_id)
        (record rt { current = set_current_task_multiple true rt.current }) p t v.indexed v.live
        v.room,
    ap (evaluate t.syscall_nb)
          (completed_nb_multiple rt.current result flags v.ranged ∙ ap set_multiple v.same)
        ∙ (evaluate-set_multiple t.syscall_nb (nb_in rt p t v)).1,
  )
