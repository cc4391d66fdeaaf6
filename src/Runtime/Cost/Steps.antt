-- ===== src/Runtime/Cost/Steps.antt =====
-- What the operations of the runtime do to the futures in the blocks, to the entries that wait, and to
-- the wake list.
use onlyio.Base.{
  Option, none, ℕ, ◌+◌, ◌≡◌, refl, ap, ◌∙◌, ◌⊎◌, inl, inr, true, false, not, some, none, arith,
  ◌==◌, length, Bool-cases, Outcome, ok, Yields, Yields.gives, Yields.fails, Yields.breaks,
  Yields-bind, Yields-map, Yields-self, Yields-assert, Yields-expect, Yields-deref, List, [], ◌∷◌,
  ◌++◌, expect_none, assert_failed, ◌%◌, ◌^◌, if◌then◌else◌, length-append, Option-cases, deref,
  expect, get_elem?, add_overflow, leb, max, ◌-◌,
}
use onlyio.Words.{set_multiple, rank}
use onlyio.Sqe.{Op, Entry, write_fixed}
use onlyio.UserData.{UserDataPayload, set_current_task_multiple, into_user_data, info_payload}
use onlyio.UserData.Tags.{Tag}
use onlyio.Task.{
  RawTask, inc_rc, add_rc, set_multishot, augmente_syscall_nb, checked_add16, set_task_idx, new,
  round_up, raw_task_size, raw_task_align,
}
use onlyio.Task.Store.{Store, write_cell, modify, release, pred?, freed}
use onlyio.Slab
use onlyio.Slab.{Slab, u32_max}
use onlyio.BufPool
use onlyio.BufPool.{WBuffer}
use onlyio.Runtime.{
  Runtime, on_task, send, send_multishot, send_commit_write, push_writes, send_multiple_write,
  advance_syscall_nb,
}
use onlyio.Runtime.Dispatch.{release_handle}
use onlyio.Runtime.Cost.Weight.{future_at}

module _ {F : Type 0} where
  -- The future stays as it is.
  abbrev pub Leaves : (RawTask F → Outcome (RawTask F)) → Type 0
  Leaves f = (t : RawTask F) → Yields (λ (t' : RawTask F). t'.future ≡ t.future) (f t)

  pub inc_rc-Leaves : Leaves inc_rc
  unfolding inc_rc
  inc_rc-Leaves t =
      Yields-bind (Yields-expect (checked_add16 t.ref_counter 1) expect_none) λ next e.
        Yields-assert (not (set_multiple t.ref_counter == set_multiple next)) assert_failed
          (gives refl)

  pub add_rc-Leaves : (count : ℕ) → Leaves (λ t. add_rc t count)
  unfolding add_rc
  add_rc-Leaves count t =
      Yields-bind (Yields-expect (checked_add16 t.ref_counter count) expect_none) λ next e.
        Yields-assert (not (set_multiple t.ref_counter == set_multiple next)) assert_failed
          (gives refl)

  multishot-Leaves : Leaves (λ t. inc_rc (set_multishot t))
  unfolding set_multishot
  multishot-Leaves t = inc_rc-Leaves (record t { syscall_nb = set_multiple t.syscall_nb })

  pub augmente-Leaves : Leaves augmente_syscall_nb
  unfolding augmente_syscall_nb
  augmente-Leaves t =
      Yields-bind (Yields-expect (checked_add16 (rank t.syscall_nb) 1) expect_none)
        λ next e. gives refl

  abbrev pub Same : Store F → Store F → Type 0
  Same st st' = (q : ℕ) → future_at st' q ≡ future_at st q

  pub modify-Same :
      (f : RawTask F → Outcome (RawTask F)) (p : ℕ) (st : Store F)
      → Leaves f
      → Yields (Same st) (modify f p st)
  modify-Same f p st l =
      Yields-bind (Yields-deref (st.cells p))
        λ t cell. Yields-bind (l t) λ t' same. gives λ q. ground (arith, cell, same)

  -- The futures stay where they are, and `n` more entries wait.
  pub record Grows (n : ℕ) (rt v : Runtime F) : Type 0 where
    pub futures : Same rt.store v.store
    pub queued : length v.pending ≡ length rt.pending + n
    pub quiet : v.wake_list ≡ rt.wake_list

  on_task-Grows :
      (f : RawTask F → Outcome (RawTask F)) (idx : ℕ) (rt : Runtime F)
      → Leaves f
      → Yields (Grows 0 rt) (on_task f idx rt)
  on_task-Grows f idx rt l = Yields-bind (Yields-self (Slab.index rt.tasks idx)) λ p e.
      Yields-bind (modify-Same f p rt.store l)
        λ st same. gives (record { futures = same; queued = omega arith; quiet = refl })

  -- One entry more
  push-Grows :
      (n : ℕ) (rt u v : Runtime F) (e : Entry)
      → Grows n rt u
      → v.store ≡ u.store
      → v.pending ≡ u.pending ++ e ∷ []
      → v.wake_list ≡ u.wake_list
      → Grows (n + 1) rt v
  push-Grows n rt u v e g s p w = record {
    futures = λ q. ap (λ st. future_at st q) s ∙ g.futures q;
    queued = omega (arith, ap length p, length-append u.pending (e ∷ []), g.queued);
    quiet = w ∙ g.quiet;
  }

  pub send-Grows : (op : Op) (rt : Runtime F) → Yields (Grows 1 rt) (send op rt)
  unfolding send
  send-Grows op rt =
      Yields-bind (on_task-Grows inc_rc rt.current.tag.task_idx rt inc_rc-Leaves)
        λ u g. gives (push-Grows 0 rt u _ _ g refl refl refl)

  pub send_multishot-Grows : (op : Op) (rt : Runtime F) → Yields (Grows 1 rt) (send_multishot op rt)
  unfolding send_multishot
  send_multishot-Grows op rt =
      let rt' = record rt { current = set_current_task_multiple true rt.current } in
      Yields-bind
        (on_task-Grows (λ t. inc_rc (set_multishot t)) rt'.current.tag.task_idx rt'
          multishot-Leaves)
        λ u g. gives (
          push-Grows 0 rt u _ _ (record { futures = g.futures; queued = g.queued; quiet = g.quiet })
            refl refl refl)

  pub send_commit_write-Grows :
      (ptr fd len buf_id : ℕ) (rt : Runtime F)
      → Yields (Grows 1 rt) (send_commit_write ptr fd len buf_id rt)
  unfolding send_commit_write
  send_commit_write-Grows ptr fd len buf_id rt =
      Yields-map
        (send-Grows (write_fixed fd ptr len buf_id)
          (record rt { current = set_current_task_multiple true rt.current }))
        λ v g. record { futures = g.futures; queued = g.queued; quiet = g.quiet }

  push_writes-Grows :
      (fds : List ℕ) (idx : ℕ) (buffer : WBuffer) (len : ℕ) (payload : UserDataPayload)
      (rt : Runtime F)
      → Yields (Grows (length fds) rt) (push_writes fds idx buffer len payload rt)
  unfolding push_writes
  push_writes-Grows [] idx buffer len payload rt =
      gives (record { futures = λ q. refl; queued = omega arith; quiet = refl })
  push_writes-Grows (fd ∷ fds) idx buffer len payload rt =
      Yields-bind (Yields-self (BufPool.clone rt.buffer buffer)) λ c e.
        Yields-bind
          (Yields-self (
            BufPool.write c.1 c.0 fd len
              (into_user_data (record payload { response_gen = idx % 2 ^ 16 }))))
          λ w e'. Yields-map (push_writes-Grows fds (idx + 1) buffer len payload _) λ v g. record {
            futures = g.futures;
            queued = omega (arith, g.queued, length-append rt.pending (w.0 ∷ []));
            quiet = g.quiet;
          }

  pub send_multiple_write-Grows :
      (fds : List ℕ) (buffer : WBuffer) (len : ℕ) (rt : Runtime F)
      → Yields (Grows (length fds) rt) (send_multiple_write fds buffer len rt)
  unfolding send_multiple_write
  send_multiple_write-Grows fds buffer len rt =
      Yields-bind (push_writes-Grows fds 0 buffer len (info_payload rt.current) rt) λ u g.
        Yields-bind
          (on_task-Grows (λ t. add_rc t (length fds % 2 ^ 16)) rt.current.tag.task_idx u
            (add_rc-Leaves (length fds % 2 ^ 16)))
          λ w h. Yields-bind (Yields-self (BufPool.drop w.buffer buffer)) λ b e. gives (record {
            futures = λ q. h.futures q ∙ g.futures q;
            queued = omega (arith, g.queued, h.queued);
            quiet = h.quiet ∙ g.quiet;
          })

  pub advance_syscall_nb-Grows :
      (tag : Tag) (rt : Runtime F) → Yields (Grows 0 rt) (advance_syscall_nb tag rt)
  unfolding advance_syscall_nb
  advance_syscall_nb-Grows tag rt =
      on_task-Grows augmente_syscall_nb tag.task_idx rt augmente-Leaves

  -- The futures elsewhere than at `p` stay; the one at `p` stays or is dropped.
  pub record Drops (p : ℕ) (rt v : Runtime F) : Type 0 where
    pub others : (q : ℕ) → (p == q) ≡ false → future_at v.store q ≡ future_at rt.store q
    pub own : (future_at v.store p ≡ none) ⊎ (future_at v.store p ≡ future_at rt.store p)
    pub queued : v.pending ≡ rt.pending
    pub quiet : v.wake_list ≡ rt.wake_list

  freed_or_kept :
      (p n : ℕ) (t : RawTask F) (st : Store F)
      → st.cells p ≡ some t
      → (r : Store F)
      → r
        ≡ (if◌then◌else◌ {A = Option ℕ × Store F}
            (n == 0)
            (none, freed p t st)
            (some n, write_cell st p (some (record t { ref_counter = n })))).1
      → ((q : ℕ) → (p == q) ≡ false → future_at r q ≡ future_at st q)
        × ((future_at r p ≡ none) ⊎ (future_at r p ≡ future_at st p))
  freed_or_kept p n t st cell r e = elim (Bool-cases (n == 0)) [
    | inl z ↦ (λ q o. ground (arith, e, z, o), inl (ground (arith, e, z)))
    | inr z ↦ (λ q o. ground (arith, e, z, o), inr (ground (arith, e, z, cell)))
  ]

  pub release_handle-Drops : (p : ℕ) (rt : Runtime F) → Yields (Drops p rt) (release_handle p rt)
  unfolding release_handle release
  release_handle-Drops p rt = elim (Option-cases (rt.store.cells p)) [
    | inl gone ↦ rw gone breaks
    | inr (t, cell) ↦ elim (Option-cases (pred? t.ref_counter)) [
      | inl none_left ↦ rw (cell, none_left) fails
      | inr (n, e) ↦
          rw (cell, e)
            (let h = freed_or_kept p n t rt.store cell _ refl in
              gives (record { others = h.0; own = h.1; queued = refl; quiet = refl }))
    ]
  ]

  pub insert-Same :
      (p : ℕ) (s : Slab) (st : Store F)
      → Yields (λ (r : ℕ × Slab × Store F). Same st r.2) (Slab.insert p s st)
  unfolding Slab.insert
  insert-Same p s st =
      Yields-bind (Yields-self (if s.head == s.len then Slab.growth s else ok s)) λ s' e.
        Yields-bind (Yields-self (deref (get_elem? s'.slots s'.head))) λ slot found.
          Yields-bind
            (modify-Same (λ t. ok (set_task_idx t s'.head)) p st
              λ t. unfold set_task_idx in gives refl)
            λ st' same. Yields-bind (Yields-self (Slab.next_free slot)) λ next e'.
              Yields-bind
                (Yields-self (
                  expect (if s'.task_count == u32_max then none else some (s'.task_count + 1))
                    add_overflow))
                λ count e''. gives same

  pub new-future :
      (size align : ℕ) (future : F)
      → Yields (λ (r : RawTask F × ℕ). r.0.future ≡ future) (new size align future)
  unfolding new
  new-future size align future =
      let offset = round_up raw_task_size align in
      let alloc_size = round_up (offset + size) (max align raw_task_align) in
      Yields-assert (leb align raw_task_align) assert_failed (
        Yields-assert (leb alloc_size (2 ^ 63 - 1)) expect_none (
          Yields-assert (offset == raw_task_size) assert_failed
            (Yields-assert (leb alloc_size (2 ^ 32 - 1)) assert_failed (gives refl))))
