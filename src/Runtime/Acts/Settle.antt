-- ===== src/Runtime/Acts/Settle.antt =====
-- The claims when a task enters the slab, and when `spawn` gives its two handles back.
use onlyio.Base.{
  ℕ, ◌+◌, ◌-◌, ◌^◌, ◌<◌, ◌≡◌, refl, ap, ◌∙◌, true, Bool-cases, inl, inr, List, some, none, ok,
  ◌>>=◌, arith, Ensures, Ensures.returns, Ensures-bind, Ensures-map, Ensures-ok, Ensures-assert,
  expect_none, assert_failed, leb, ◌==◌, if◌then◌else◌, ==→eq,
}
use Prim.Native.Nat.{max}
use onlyio.Task.{RawTask, new, set_task_idx, raw_task_align, raw_task_size, round_up}
use onlyio.Task.Store.{Store, update, write_cell}
use onlyio.Task.Release.{write_cell-write_cell}
use onlyio.UserData.{TaskInfo}
use onlyio.Slab
use onlyio.Slab.{Slab, is_task}
use onlyio.Slab.Insert.{insert-Inserts}
use onlyio.Slab.Invariant.{WellFormed}
use onlyio.Slab.Map.{lookup}
use onlyio.Runtime.{Runtime}
use onlyio.Runtime.Dispatch.{with_store, with_current, release_handle}
use onlyio.Runtime.Account.{Account, Account-ext}
use onlyio.Runtime.Account.Claims.{modify-Account, release-Account}
use onlyio.Runtime.Acts.{HasRoom, settle}
use onlyio.Runtime.Acts.Entries.{refs}
use onlyio.Runtime.Acts.Balance.{Keeps, Balanced, rebalance}

module _ {F : Type 0} where
  -- A live block of two handles gets the index `i`, which was not occupied.
  entered :
      (s s' : Slab) (st : Store F) (fs fs' : List ℕ) (claims : ℕ → ℕ) (i p : ℕ) (t : RawTask F)
      → Account s st fs claims
      → WellFormed s' fs'
      → lookup s i ≡ none
      → ((j : ℕ) → lookup s' j ≡ (if i == j then some p else lookup s j))
      → st.cells p ≡ none
      → t.ref_counter ≡ 2
      → Account s' (write_cell st p (some (record t { slab_idx = some i }))) fs' (update claims i 2)
  entered s s' st fs fs' claims i p t a wf free there fresh two = record {
    wf = wf;
    live = λ j q e g. elim (Bool-cases (i == j)) [
      | inl same ↦ (
        record t { slab_idx = some i },
        record {
          found = e;
          cell = ground (arith, same, e, there j);
          own = ap some (==→eq i j same);
        },
        rw (same, two),
      )
      | inr other ↦
          let k = a.live j q (ground (arith, e, there j, other)) g in
          (
            k.0,
            record { found = e; cell = ground (arith, k.1.cell, fresh); own = k.1.own },
            rw other k.2,
          )
    ];
    claimed = λ j q e g. ground (arith, a.claimed j q, e, g, there j);
    small = λ j. ground (arith, a.small j);
    gone = λ j g. ground (arith, a.gone j g, a.unused i free);
    once = a.once;
    unused = λ j e. ground (arith, a.unused j, e, there j);
  }

  -- What `insert` leaves: the new index is that of the task at `p`, with two claims.
  abbrev pub Entered : Slab → (ℕ → ℕ) → ℕ → (ℕ × Slab × Store F) → Type 0
  Entered s claims p r =
      (fs' : List ℕ) × Account r.1 r.2 fs' (update claims r.0 2)
      × (claims r.0 ≡ 0)
      × (lookup r.1 r.0 ≡ some p)
      × Keeps s r.1

  -- `insert` of such a block
  pub insert-Account :
      (s : Slab) (st : Store F) (fs : List ℕ) (claims : ℕ → ℕ) (p : ℕ) (t : RawTask F)
      → Account s st fs claims
      → HasRoom s
      → is_task p ≡ true
      → st.cells p ≡ none
      → t.ref_counter ≡ 2
      → Ensures (Entered s claims p) (Slab.insert p s (write_cell st p (some t)))
  unfolding set_task_idx
  insert-Account s st fs claims p t a room even fresh two =
      let (i, s', fs', e, wf, free, there, c) =
        insert-Inserts p s (write_cell st p (some t)) t fs a.wf room.0 room.1 even (ground arith) in
      rw (e, write_cell-write_cell st p (some t) (some (record t { slab_idx = some i })))
        (returns (
          fs',
          entered s s' st fs fs' claims i p t a wf free there fresh two,
          (a.unused i free).0,
          ground (arith, there i),
          λ j q f. ground (arith, there j, f, free),
        ))

  pub new-one :
      (size align : ℕ) (future : F)
      → Ensures (λ (r : RawTask F × ℕ). r.0.ref_counter ≡ 1) (new size align future)
  unfolding new
  new-one size align future =
      let offset = round_up raw_task_size align in
      let alloc_size = round_up (offset + size) (max align raw_task_align) in
      Ensures-assert (leb align raw_task_align) assert_failed (
        Ensures-assert (leb alloc_size (2 ^ 63 - 1)) expect_none (
          Ensures-assert (offset == raw_task_size) assert_failed
            (Ensures-assert (leb alloc_size (2 ^ 32 - 1)) assert_failed (returns refl))))

  -- The future is put back into its block.
  pub refuture-Account :
      (s : Slab) (st : Store F) (fs : List ℕ) (claims : ℕ → ℕ) (i p : ℕ) (t : RawTask F) (f : F)
      → Account s st fs claims
      → 0 < claims i
      → lookup s i ≡ some p
      → st.cells p ≡ some t
      → Account s (write_cell st p (some (record t { future = f }))) fs claims
  refuture-Account s st fs claims i p t f a c found cell =
      Account-ext s (write_cell st p (some (record t { future = f }))) fs (λ j. ground arith)
        (Ensures-ok
          (modify-Account s st fs claims i p a c found
            (λ (u : RawTask F). ok (record u { future = f })) 0
            λ u h. returns (refl, omega arith, h))
          (rw cell refl))

  -- One handle on the task `i` is dropped.
  pub release_handle-Balanced :
      (extra : ℕ → ℕ) (i p : ℕ) (rt : Runtime F)
      → Balanced extra rt
      → 0 < extra i
      → lookup rt.tasks i ≡ some p
      → Ensures
          (λ v.
            Balanced (update extra i (extra i - 1)) v
            × (v.tasks ≡ rt.tasks)
            × (v.current ≡ rt.current)
            × (v.pending ≡ rt.pending))
          (release_handle p rt)
  unfolding release_handle
  release_handle-Balanced extra i p rt b c found =
      Ensures-bind
        (release-Account rt.tasks rt.store b.0 (λ j. extra j + refs j rt.pending) i p b.1
          (omega (arith, c)) found)
        λ r a. returns (
          rebalance (update extra i (extra i - 1)) (with_store rt r.1) b.0 _ b.2 a
              (λ j. ground (arith, c)),
          refl,
          refl,
          refl,
        )

  -- The two handles of a spawn are dropped, with the CURRENT_TASK of before between them.
  pub twice-Balanced :
      (extra : ℕ → ℕ) (i p : ℕ) (back : Runtime F) (current : TaskInfo)
      → Balanced (update extra i 2) back
      → extra i ≡ 0
      → lookup back.tasks i ≡ some p
      → Ensures
          (λ v. Balanced extra v × (v.tasks ≡ back.tasks) × (v.current ≡ current))
          (release_handle p back >>= λ released. release_handle p (with_current released current))
  twice-Balanced extra i p back current b none_before found =
      Ensures-bind (release_handle-Balanced (update extra i 2) i p back b (ground arith) found)
        λ u h.
          Ensures-map
            (release_handle-Balanced (update (update extra i 2) i (update extra i 2 i - 1)) i p
              (with_current u current) h.0 (ground arith) (ap (λ s. lookup s i) h.1 ∙ found))
            λ v k. (
              rebalance extra v k.0.0 _ k.0.2 k.0.1 (λ j. ground (arith, none_before)),
              k.1 ∙ h.1,
              k.2,
            )

  pub settle-Balanced :
      (extra : ℕ → ℕ) (i p : ℕ) (f' : F) (t' : RawTask F) (after before : Runtime F)
      → Balanced (update extra i 2) after
      → extra i ≡ 0
      → lookup after.tasks i ≡ some p
      → after.store.cells p ≡ some t'
      → Ensures
          (λ v. Balanced extra v × (v.tasks ≡ after.tasks) × (v.current ≡ before.current))
          (settle p f' t' after before)
  settle-Balanced extra i p f' t' after before b none_before found cell =
      twice-Balanced extra i p
        (with_store after (write_cell after.store p (some (record t' { future = f' }))))
        before.current
        (
          b.0,
          refuture-Account after.tasks after.store b.0 _ i p t' f' b.1 (ground arith) found cell,
          b.2,
        )
        none_before found
