-- ===== src/Runtime/Acts/Queue.antt =====
-- Each call that queues entries adds as many claims on the task of CURRENT_TASK as it adds to its count.
use onlyio.Base.{
  ℕ, ◌+◌, ◌^◌, ◌<◌, ◌≡◌, refl, ap, subst, append-nil, ◌∙◌, List, [], ◌∷◌, ◌++◌, ok, Outcome, ◌>>=◌,
  arith, Ensures, Ensures.returns, Ensures-bind, Ensures-map, if◌then◌else◌, ◌==◌, true,
}
use onlyio.Sqe.{Entry, Op, write_fixed}
use onlyio.UserData.{TaskInfo, current_udata, set_current_task_multiple}
use onlyio.Task.{RawTask, inc_rc, set_multishot, augmente_syscall_nb}
use onlyio.Task.Store.{modify}
use onlyio.Slab
use onlyio.Slab.{Slab}
use onlyio.Slab.Map.{index_of_lookup}
use onlyio.Runtime.{
  Runtime, on_task, push_pending, send, send_multishot, send_commit_write, advance_syscall_nb,
}
use onlyio.Runtime.Account.Claims.{
  Adds, modify-Account, inc_rc-Adds, inc_rc-set_multishot-Adds, augmente-Adds,
}
use onlyio.Runtime.Acts.Entries.{refs, refs-append, idx_of-current}
use onlyio.Runtime.Acts.Balance.{Polling, Polling-index, Polling-lt, rebalance}

-- The one entry of a call
one_entry :
    (op : Op) (current : TaskInfo) (i j : ℕ)
    → current.tag.task_idx ≡ i
    → i < 2 ^ 32
    → refs j (record { op = op; user_data = current_udata current } ∷ [])
      ≡ (if i == j then 1 else 0)
one_entry op current i j e h = rw (idx_of-current current (omega (arith, e, h)), e) (omega arith)

module _ {F : Type 0} (extra : ℕ → ℕ) (i p : ℕ) (s : Slab) where
  -- `k` references more of the task, and `k` entries more that name it
  pub queue-Polling :
      (rt : Runtime F) (f : RawTask F → Outcome (RawTask F)) (k : ℕ) (es : List Entry)
      (current : TaskInfo)
      → ((t : RawTask F) → t.ref_counter < 2 ^ 16 → Ensures (Adds k t) (f t))
      → ((j : ℕ) → refs j es ≡ (if i == j then k else 0))
      → current.tag.task_idx ≡ i
      → Polling extra i p s rt
      → Ensures
          (λ st.
            Polling extra i p s
              (record rt { store = st; pending = rt.pending ++ es; current = current }))
          (modify f p rt.store)
  queue-Polling rt f k es current adds names same v =
      Ensures-map
        (modify-Account rt.tasks rt.store v.balanced.0 (λ j. extra j + refs j rt.pending) i p
          v.balanced.1 (omega (arith, v.held)) v.found f k adds)
        λ st a. record {
          balanced =
              rebalance extra
                (record rt { store = st; pending = rt.pending ++ es; current = current })
                v.balanced.0 _ v.balanced.2 a
                λ j. ground (arith, names j, refs-append j rt.pending es);
          held = v.held;
          current = same;
          found = v.found;
          keeps = v.keeps;
        }

  -- The lines that the calls with one entry share
  one-Polling :
      (op : Op) (rt : Runtime F) (f : RawTask F → Outcome (RawTask F)) (current : TaskInfo)
      → ((t : RawTask F) → t.ref_counter < 2 ^ 16 → Ensures (Adds 1 t) (f t))
      → current.tag.task_idx ≡ rt.current.tag.task_idx
      → Polling extra i p s rt
      → Ensures (Polling extra i p s) (
          on_task f current.tag.task_idx (record rt { current = current }) >>= λ rt'.
          ok (push_pending op (current_udata current) rt'))
  one-Polling op rt f current adds e v =
      let same : current.tag.task_idx ≡ i = e ∙ v.current in
      rw (ap (Slab.index rt.tasks) same ∙ index_of_lookup rt.tasks i v.found) (
        Ensures-bind
          (Ensures-bind
            {Q = λ rt'. Polling extra i p s (push_pending op (current_udata current) rt')}
            (queue-Polling rt f 1 (record { op = op; user_data = current_udata current } ∷ [])
              current adds (λ j. one_entry op current i j same (Polling-lt extra i p s rt v)) same
              v)
            λ st w. returns w)
          λ rt' w. returns w)

  pub send-Polling :
      (op : Op) (rt : Runtime F)
      → Polling extra i p s rt
      → Ensures (Polling extra i p s) (send op rt)
  unfolding send
  send-Polling op rt v = one-Polling op rt inc_rc rt.current inc_rc-Adds refl v

  pub send_multishot-Polling :
      (op : Op) (rt : Runtime F)
      → Polling extra i p s rt
      → Ensures (Polling extra i p s) (send_multishot op rt)
  unfolding send_multishot set_current_task_multiple
  send_multishot-Polling op rt v =
      one-Polling op rt (λ t. inc_rc (set_multishot t)) (set_current_task_multiple true rt.current)
        inc_rc-set_multishot-Adds refl v

  -- CURRENT_TASK gets another header of the same task.
  pub recurrent :
      (rt : Runtime F) (current : TaskInfo)
      → current.tag.task_idx ≡ i
      → Polling extra i p s rt
      → Polling extra i p s (record rt { current = current })
  recurrent rt current e v = record {
    balanced = v.balanced;
    held = v.held;
    current = e;
    found = v.found;
    keeps = v.keeps;
  }

  pub send_commit_write-Polling :
      (ptr fd len buf_id : ℕ) (rt : Runtime F)
      → Polling extra i p s rt
      → Ensures (Polling extra i p s) (send_commit_write ptr fd len buf_id rt)
  unfolding send_commit_write set_current_task_multiple
  send_commit_write-Polling ptr fd len buf_id rt v =
      send-Polling (write_fixed fd ptr len buf_id)
        (record rt { current = set_current_task_multiple true rt.current })
        (recurrent rt (set_current_task_multiple true rt.current) v.current v)

  pub advance_syscall_nb-Polling :
      (rt : Runtime F)
      → Polling extra i p s rt
      → Ensures (Polling extra i p s) (advance_syscall_nb rt.current.tag rt)
  unfolding advance_syscall_nb
  advance_syscall_nb-Polling rt v = rw (Polling-index extra i p s rt v) (
      Ensures-bind
        (queue-Polling rt augmente_syscall_nb 0 [] rt.current augmente-Adds (λ j. ground arith)
          v.current v)
        λ st w. returns (
          subst (λ es. Polling extra i p s (record rt { store = st; pending = es }))
            (append-nil rt.pending) w))
