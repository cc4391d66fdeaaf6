-- ===== src/Runtime/Acts/Keep.antt =====
-- What a poll does keeps the accounts of all tasks, and the task that is polled alive.
use onlyio.Base.{ℕ, ◌+◌, ◌≡◌, refl, ap, ◌∙◌, [], arith, Ensures-ok}
use onlyio.Task.Store.{Store, update}
use onlyio.UserData.{initial_poll, set_to_next_task}
use onlyio.Slab.{Slab}
use onlyio.Slab.Map.{lookup}
use onlyio.Runtime.{Runtime}
use onlyio.Runtime.Send.{counted}
use onlyio.Runtime.Acts.{
  Acts, Acts.done, Acts.sends, Acts.sends_multishot, Acts.commits, Acts.fans_out, Acts.advances,
  Acts.goes_on, Acts.uses_buffers, Acts.spawns,
}
use onlyio.Runtime.Acts.Entries.{refs}
use onlyio.Runtime.Acts.Balance.{Keeps, Balanced, Polling, rebalance, rebuffer}
use onlyio.Runtime.Acts.Queue.{
  send-Polling, send_multishot-Polling, send_commit_write-Polling, advance_syscall_nb-Polling,
  recurrent,
}
use onlyio.Runtime.Acts.Writes.{send_multiple_write-Polling}
use onlyio.Runtime.Acts.Settle.{Entered, insert-Account, new-one, settle-Balanced}

module _ {F : Type 0} where
  -- A fresh task is polled for the first time.
  pub Entered-Polling :
      (extra : ℕ → ℕ) (u : Runtime F) (p : ℕ) (r : ℕ × Slab × Store F)
      → u.wake_list ≡ []
      → Entered u.tasks (λ j. extra j + refs j u.pending) p r
      → (extra r.0 ≡ 0)
        × Polling
            (update extra r.0 2)
            r.0
            p
            r.1
            (record u { tasks = r.1; store = r.2; current = initial_poll r.0 })
  unfolding initial_poll
  Entered-Polling extra u p (i, s, st) quiet (fs, a, none_i, found, keeps) = (
    omega (arith, none_i),
    record {
      balanced =
          rebalance (update extra i 2)
            (record u { tasks = s; store = st; current = initial_poll i }) fs _ quiet a
            (λ j. ground (arith, none_i));
      held = ground arith;
      current = refl;
      found = found;
      keeps = λ j q e. e;
    },
  )

  -- A spawn within a poll comes back to the task that is polled.
  returned :
      (extra : ℕ → ℕ) (i p : ℕ) (s r : Slab) (u after v : Runtime F)
      → Polling extra i p s u
      → Keeps u.tasks r
      → Keeps r after.tasks
      → Balanced extra v
      → v.tasks ≡ after.tasks
      → v.current ≡ u.current
      → Polling extra i p s v
  returned extra i p s r u after v w k k' b e c = record {
    balanced = b;
    held = w.held;
    current = ap (λ x. x.tag.task_idx) c ∙ w.current;
    found = kept i p w.found;
    keeps = λ j q f. kept j q (w.keeps j q f);
  }
    where
      kept : Keeps u.tasks v.tasks
      kept j q f = ap (λ x. lookup x j) e ∙ k' j q (k j q f)

  pub Acts-Polling :
      {rt v : Runtime F} (extra : ℕ → ℕ) (i p : ℕ) (s : Slab)
      → Acts rt v
      → Polling extra i p s rt
      → Polling extra i p s v
  unfolding set_to_next_task
  Acts-Polling extra i p s done w = w
  Acts-Polling extra i p s (sends {u} a op e) w =
      Ensures-ok (send-Polling extra i p s op u (Acts-Polling extra i p s a w)) e
  Acts-Polling extra i p s (sends_multishot {u} a op e) w =
      Ensures-ok (send_multishot-Polling extra i p s op u (Acts-Polling extra i p s a w)) e
  Acts-Polling extra i p s (commits {u} a ptr fd len buf_id e) w =
      Ensures-ok
        (send_commit_write-Polling extra i p s ptr fd len buf_id u (Acts-Polling extra i p s a w)) e
  Acts-Polling extra i p s (fans_out {u} a fds buffer len few e) w =
      Ensures-ok
        (send_multiple_write-Polling extra i p s fds buffer len u few
          (Acts-Polling extra i p s a w))
        e
  Acts-Polling extra i p s (advances {u} a e) w =
      Ensures-ok (advance_syscall_nb-Polling extra i p s u (Acts-Polling extra i p s a w)) e
  Acts-Polling extra i p s (goes_on {u} a) w =
      let w' = Acts-Polling extra i p s a w in
      recurrent extra i p s u (set_to_next_task u.current) w'.current w'
  Acts-Polling extra i p s (uses_buffers {u} a b r) w =
      rebuffer {rt = u} b r (Acts-Polling extra i p s a w)
  Acts-Polling extra i p s
        (spawns {u} {after} {v} a p' i' size align offset future f' t t' r st fresh even room made
          inserted acts cell end)
        w =
      let w' = Acts-Polling extra i p s a w in
      let one = Ensures-ok (new-one size align future) made in
      let new_task =
        Ensures-ok
          (insert-Account u.tasks u.store w'.balanced.0 (λ j. extra j + refs j u.pending) p'
            (counted t) w'.balanced.1 room even fresh (omega (arith, one)))
          inserted in
      let (none_before, ready) = Entered-Polling extra u p' (i', r, st) w'.balanced.2 new_task in
      let polled = Acts-Polling (update extra i' 2) i' p' r acts ready in
      let back =
        Ensures-ok
          (settle-Balanced extra i' p' f' t' after u polled.balanced none_before polled.found cell)
          end in
      returned extra i p s r u after v w' new_task.4 polled.keeps back.0 back.1 back.2
