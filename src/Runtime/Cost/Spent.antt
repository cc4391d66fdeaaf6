-- ===== src/Runtime/Cost/Spent.antt =====
-- What a poll does weighs no more than it costs.
use onlyio.Base.{
  ℕ, ◌+◌, ◌≤◌, ◌≡◌, refl, ap, ◌∙◌, inl, inr, false, some, none, arith, ◌==◌, length, Bool-cases, ok,
  Yields, Yields-bind, Yields-map, Yields-ok,
}
use onlyio.UserData.{initial_poll}
use onlyio.Task.{RawTask}
use onlyio.Task.Store.{Store, write_cell}
use onlyio.Slab.{Slab}
use onlyio.Runtime.{Runtime}
use onlyio.Runtime.Dispatch.{with_store, with_current}
use onlyio.Runtime.Send.{counted}
use onlyio.Runtime.Acts.{
  Acts, Acts.done, Acts.sends, Acts.sends_multishot, Acts.commits, Acts.fans_out, Acts.advances,
  Acts.goes_on, Acts.uses_buffers, Acts.spawns, settle,
}
use onlyio.Runtime.Cost.{cost}
use onlyio.Runtime.Cost.Weight.{future_at, rank_of, ranks, Weighs, Within-le, Within-change}
use onlyio.Runtime.Cost.Steps.{
  Same, Grows, send-Grows, send_multishot-Grows, send_commit_write-Grows, send_multiple_write-Grows,
  advance_syscall_nb-Grows, Drops, release_handle-Drops, insert-Same, new-future,
}

module _ {F : Type 0} (rank : F → ℕ) where
  -- At most `n` more are queued or can be, no future is moved, and no task is woken.
  pub record Spends (n : ℕ) (rt v : Runtime F) : Type 0 where
    pub weighs : (bound : ℕ) → Weighs rank bound rt → Weighs rank (bound + n) v
    pub stays : (q : ℕ) (f : F) → future_at rt.store q ≡ some f → future_at v.store q ≡ some f
    pub quiet : v.wake_list ≡ rt.wake_list

  -- What grows by `m` entries after that
  grown : (n m : ℕ) (rt u v : Runtime F) → Spends n rt u → Grows m u v → Spends (n + m) rt v
  grown n m rt u v s g = record {
    weighs = λ bound w b. omega (
      arith,
      g.queued,
      Within-le (ranks rank u.store) (ranks rank v.store) (length u.pending) (bound + n)
          (λ q. rw (g.futures q) (omega arith)) (s.weighs bound w) b,
    );
    stays = λ q f e. g.futures q ∙ s.stays q f e;
    quiet = g.quiet ∙ s.quiet;
  }

  free : (rt u v : Runtime F) (n : ℕ) → Spends n rt u → Grows 0 u v → Spends n rt v
  free rt u v n s g =
      let s' = grown n 0 rt u v s g in
      record {
        weighs = λ bound w b. omega (arith, s'.weighs bound w b);
        stays = s'.stays;
        quiet = s'.quiet;
      }

  -- A block at `p` gets another future.
  pub moved :
      (p bound bound' : ℕ) (rt v : Runtime F)
      → Weighs rank bound rt
      → ((q : ℕ) → (p == q) ≡ false → future_at v.store q ≡ future_at rt.store q)
      → length v.pending ≡ length rt.pending
      → bound + ranks rank v.store p ≤ bound' + ranks rank rt.store p
      → Weighs rank bound' v
  moved p bound bound' rt v w others same l = rw same (
      Within-change (ranks rank rt.store) (ranks rank v.store) p (length rt.pending) bound bound'
        (λ q o. rw (others q o) (omega arith)) l w)

  pub dropped :
      (p bound : ℕ) (rt v : Runtime F) → Drops p rt v → Weighs rank bound rt → Weighs rank bound v
  dropped p bound rt v d w =
      moved p bound bound rt v w d.others (ap length d.queued)
        (elim (d.own) [ inl e ↦ rw e (omega arith) | inr e ↦ rw e (omega arith) ])

  -- The end of a spawn
  record Settles (p : ℕ) (f' g : F) (after v : Runtime F) : Type 0 where
    weighs :
        (bound bound' : ℕ)
        → bound + rank f' ≤ bound' + rank g
        → Weighs rank bound after
        → Weighs rank bound' v
    others : (q : ℕ) → (p == q) ≡ false → future_at v.store q ≡ future_at after.store q
    quiet : v.wake_list ≡ after.wake_list

  settle-Settles :
      (p : ℕ) (f' g : F) (t' : RawTask F) (after before : Runtime F)
      → future_at after.store p ≡ some g
      → Yields (Settles p f' g after) (settle p f' t' after before)
  settle-Settles p f' g t' after before there =
      let put : Runtime F =
        with_store after (write_cell after.store p (some (record t' { future = f' }))) in
      let new_rank : ranks rank put.store p ≡ rank f' = ground arith in
      Yields-bind (release_handle-Drops p put) λ u d.
        Yields-map (release_handle-Drops p (with_current u before.current)) λ v d'. record {
          weighs = λ bound bound' l w. dropped p bound' (with_current u before.current) v d' (
              dropped p bound' put u d (
                moved p bound bound' after put w (λ q o. ground (arith, o)) refl
                  (omega (arith, new_rank, ap (rank_of rank) there))));
          others = λ q o. d'.others q o ∙ d.others q o ∙ ground (arith, o);
          quiet = d'.quiet ∙ d.quiet;
        }

  spawned :
      (n m p i : ℕ) (future f' : F) (t t' : RawTask F) (s : Slab) (st : Store F)
      (rt u after v : Runtime F)
      → Spends n rt u
      → u.store.cells p ≡ none
      → t.future ≡ future
      → Same (write_cell u.store p (some (counted t))) st
      → Spends m (record u { tasks = s; store = st; current = initial_poll i }) after
      → settle p f' t' after u ≡ ok v
      → Spends (n + m + rank f') rt v
  spawned n m p i future f' t t' s st rt u after v a fresh one same acts end = record {
    weighs = λ bound w.
        end_of.weighs (bound + n + rank future + m) (bound + (n + m + rank f')) (omega arith) (
          acts.weighs (bound + n + rank future) (
            moved p (bound + n) (bound + n + rank future) u entered (a.weighs bound w) elsewhere
              refl (omega (arith, ap (rank_of rank) here))));
    stays = λ q f e. elim (Bool-cases (p == q)) [
      | inl own ↦ absurd (ground (arith, a.stays q f e, fresh, own))
      | inr o ↦ end_of.others q o ∙ acts.stays q f (elsewhere q o ∙ a.stays q f e)
    ];
    quiet = end_of.quiet ∙ acts.quiet ∙ a.quiet;
  }
    where
      entered : Runtime F
      entered = record u { tasks = s; store = st; current = initial_poll i }

      here : future_at st p ≡ some future
      here = same p ∙ ground (arith, one)

      elsewhere : (q : ℕ) → (p == q) ≡ false → future_at st q ≡ future_at u.store q
      elsewhere q o = same q ∙ ground (arith, o)

      end_of : Settles p f' future after v
      end_of = Yields-ok (settle-Settles p f' future t' after u (acts.stays p future here)) end

  pub Acts-Spends : {rt v : Runtime F} (a : Acts rt v) → Spends (cost rank a) rt v
  unfolding cost
  Acts-Spends {rt} done = record {
    weighs = λ bound w b. omega (arith, w b);
    stays = λ q f e. e;
    quiet = refl;
  }
  Acts-Spends {rt} {v} (sends {u} a op e) =
      grown (cost rank a) 1 rt u v (Acts-Spends a) (Yields-ok (send-Grows op u) e)
  Acts-Spends {rt} {v} (sends_multishot {u} a op e) =
      grown (cost rank a) 1 rt u v (Acts-Spends a) (Yields-ok (send_multishot-Grows op u) e)
  Acts-Spends {rt} {v} (commits {u} a ptr fd len buf_id e) =
      grown (cost rank a) 1 rt u v (Acts-Spends a)
        (Yields-ok (send_commit_write-Grows ptr fd len buf_id u) e)
  Acts-Spends {rt} {v} (fans_out {u} a fds buffer len few e) =
      grown (cost rank a) (length fds) rt u v (Acts-Spends a)
        (Yields-ok (send_multiple_write-Grows fds buffer len u) e)
  Acts-Spends {rt} {v} (advances {u} a e) =
      free rt u v (cost rank a) (Acts-Spends a)
        (Yields-ok (advance_syscall_nb-Grows u.current.tag u) e)
  Acts-Spends (goes_on a) =
      let s = Acts-Spends a in record { weighs = s.weighs; stays = s.stays; quiet = s.quiet }
  Acts-Spends (uses_buffers a b r) =
      let s = Acts-Spends a in record { weighs = s.weighs; stays = s.stays; quiet = s.quiet }
  Acts-Spends {rt}
        (spawns {u} {after} {v} a p i size align offset future f' t t' s st fresh even room made
          inserted acts cell end) =
      spawned (cost rank a) (cost rank acts) p i future f' t t' s st rt u after v (Acts-Spends a)
        fresh (Yields-ok (new-future size align future) made)
        (Yields-ok (insert-Same p u.tasks (write_cell u.store p (some (counted t)))) inserted)
        (Acts-Spends acts) end
