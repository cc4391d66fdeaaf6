-- ===== src/Runtime/Polls/Drops.antt =====
-- `Drop for Slab` of src/task_slab.rs, when the runtime goes.
use onlyio.Base.{
  Bool, true, if◌then◌else◌, Option, none, sym, eq→==, ℕ, zero, suc, ◌+◌, ◌-◌, ◌<◌, ◌≡◌, ◌≢◌, refl,
  ap, ◌∙◌, false, Bool-cases, inl, inr, List, [], ◌∷◌, some, ok, arith, get_elem?, count, ◌==◌,
  ne→==, ==→eq, ==_false→ne,
}
use onlyio.Task.{RawTask}
use onlyio.Task.Store.{Store, write_cell, freed, release}
use onlyio.Task.Release.{release-last, release-more}
use onlyio.Slab.{drop_slots, is_task, is_free}
use onlyio.Slab.Map.{lookup, lookup-entry}
use onlyio.Runtime.{Runtime}
use onlyio.Runtime.Acts.Balance.{Balanced}

-- Whether an occupied slot holds the task at `q`
abbrev pub held : ℕ → List ℕ → Bool
held q [] = false
held q (w ∷ ws) = if is_free w then held q ws else (if w == q then true else held q ws)

held-at :
    (q : ℕ) (ws : List ℕ)
    → held q ws ≡ true
    → (j : ℕ) × (get_elem? ws j ≡ some q) × (is_free q ≡ false)
held-at q [] e = absurd (ground (arith, e))
held-at q (w ∷ ws) e = elim (Bool-cases (is_free w)) [
  | inl unused ↦ let (j, at, occ) = held-at q ws (ground (arith, e, unused)) in (suc j, at, occ)
  | inr occupied ↦ elim (Bool-cases (w == q)) [
    | inl same ↦ (0, ap some (==→eq w q same), ap is_free (sym (==→eq w q same)) ∙ occupied)
    | inr other ↦
        let (j, at, occ) = held-at q ws (ground (arith, e, occupied, other)) in (suc j, at, occ)
  ]
]

module _ {F : Type 0} where
  -- Every task in the slots, the first of which has the index `k`, is live and knows its index.
  abbrev Owned : ℕ → List ℕ → Store F → Type 0
  Owned k ws st =
      (j w : ℕ)
      → get_elem? ws j ≡ some w
      → is_free w ≡ false
      → (t : RawTask F) × (st.cells w ≡ some t) × (0 < t.ref_counter) × (t.slab_idx ≡ some (k + j))

  -- A block after one release of it
  abbrev pub given_up : Option (RawTask F) → Option (RawTask F)
  given_up none = none
  given_up (some t) =
      if t.ref_counter == 1 then none else some (record t { ref_counter = t.ref_counter - 1 })

  -- A release touches one block.
  release-apart :
      (p : ℕ) (st : Store F) (t : RawTask F)
      → st.cells p ≡ some t
      → 0 < t.ref_counter
      → (r : Option ℕ × Store F) × (release p st ≡ ok r)
        × (r.1.cells p ≡ given_up (some t))
        × ((q : ℕ) → p ≢ q → r.1.cells q ≡ st.cells q)
  release-apart p st t e c = elim (Bool-cases (t.ref_counter == 1)) [
    | inl one ↦ (
      (none, freed p t st),
      release-last p st e (==→eq _ _ one),
      rw (one, eq→== p p refl) refl,
      λ q ne. rw (ne→== p q ne),
    )
    | inr more ↦ (
      (
        some (t.ref_counter - 1),
        write_cell st p (some (record t { ref_counter = t.ref_counter - 1 })),
      ),
      release-more p st e (omega (arith, c, ==_false→ne _ _ more)),
      rw (more, eq→== p p refl) refl,
      λ q ne. rw (ne→== p q ne),
    )
  ]

  Owned-rest :
      (k w : ℕ) (ws : List ℕ) (st st' : Store F) (t : RawTask F)
      → Owned k (w ∷ ws) st
      → st.cells w ≡ some t
      → t.slab_idx ≡ some k
      → ((q : ℕ) → w ≢ q → st'.cells q ≡ st.cells q)
      → Owned (k + 1) ws st'
  Owned-rest k w ws st st' t o cell own same j v at occupied =
      let (u, l, c, i) = o (suc j) v at occupied in
      (
        u,
        same v (λ (e : w ≡ v). ground (arith, e, cell, l, own, i)) ∙ l,
        c,
        i ∙ ap some (omega arith),
      )

  -- No second slot holds the task.
  held-once :
      (k w : ℕ) (ws : List ℕ) (st : Store F) (t : RawTask F)
      → Owned k (w ∷ ws) st
      → st.cells w ≡ some t
      → t.slab_idx ≡ some k
      → held w ws ≡ false
  held-once k w ws st t o cell own = elim (Bool-cases (held w ws)) [
    | inr apart ↦ apart
    | inl found ↦
        let (j, at, occupied) = held-at w ws found in
        let (u, l, c, i) = o (suc j) w at occupied in ground (arith, cell, l, own, i)
  ]

  all_dropped :
      (q : ℕ) (ws : List ℕ) (k : ℕ) (st : Store F)
      → Owned k ws st
      → (st' : Store F) × (drop_slots ws st ≡ ok st')
        × (st'.cells q ≡ (if held q ws then given_up (st.cells q) else st.cells q))
  unfolding drop_slots
  all_dropped q [] k st o = (st, refl, refl)
  all_dropped q (w ∷ ws) k st o = elim (Bool-cases (is_free w)) [
    | inl unused ↦
        let rest = all_dropped q ws (k + 1) st (λ j v at occupied.
          let (u, l, c, i) = o (suc j) v at occupied in (u, l, c, i ∙ ap some (omega arith))) in
        (rest.0, rw unused rest.1, rw unused rest.2)
    | inr occupied ↦
        let (t, cell, c, own) = o zero w refl occupied in
        let first : t.slab_idx ≡ some k = own ∙ ap some (omega arith) in
        let (r, e, gone, same) = release-apart w st t cell c in
        let rest = all_dropped q ws (k + 1) r.1 (Owned-rest k w ws st r.1 t o cell first same) in
        (
          rest.0,
          rw (occupied, e) rest.1,
          elim (Bool-cases (w == q)) [
            | inl here ↦
                let eq : w ≡ q = ==→eq w q here in
                let once : held q ws ≡ false =
                  ap (λ v. held v ws) (sym eq) ∙ held-once k w ws st t o cell first in
                rw (occupied, here)
                  (rest.2
                    ∙ rw once
                        (ap r.1.cells (sym eq) ∙ gone ∙ ap given_up (sym cell ∙ ap st.cells eq)))
            | inr apart ↦ rw (occupied, apart) (rest.2 ∙ rw (same q (==_false→ne _ _ apart)) refl)
          ],
        )
  ]

  -- When the counts of the tasks are the numbers of claims on them, no waker waits, and no finished task waits to be
  -- taken out of the slab, as `free_unsed_slab_slot` leaves it, dropping the slab does not panic and
  -- releases the task of each occupied slot exactly once: the block at any address `q` is afterwards
  -- freed, when a slot held it and its count was 1, has the count less 1, when a slot held it and its
  -- count was another, and is as it was, when no slot held it. No block is accessed that an
  -- earlier release has freed; a last release reads the count back from the block it has just freed.
  pub drop_slots-Balanced :
      (extra : ℕ → ℕ) (rt : Runtime F) (q : ℕ)
      → Balanced extra rt
      → rt.store.free_list ≡ []
      → (st : Store F) × (drop_slots rt.tasks.slots rt.store ≡ ok st)
        × (st.cells q
            ≡ (if held q rt.tasks.slots then given_up (rt.store.cells q) else rt.store.cells q))
  unfolding is_free is_task
  drop_slots-Balanced extra rt q (fs, a, quiet) empty =
      all_dropped q rt.tasks.slots 0 rt.store λ j w at occupied.
        let found : lookup rt.tasks j ≡ some w =
          lookup-entry rt.tasks j a.wf.sized ∙ ground (arith, at, occupied) in
        let (t, l, e) = a.live j w found (ap (count j) empty) in
        (
          t,
          l.cell,
          omega (arith, e, a.claimed j w found (ap (count j) empty)),
          l.own ∙ ap some (omega arith),
        )
