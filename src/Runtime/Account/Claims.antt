-- ===== src/Runtime/Account/Claims.antt =====
-- What the operations on headers do to the claims: `inc_rc`, `add_rc`, `clone` and `release`.
use onlyio.Base.{
  ℕ, ◌+◌, ◌-◌, ◌%◌, ◌^◌, ◌<◌, ◌≡◌, refl, ap, subst, ◌∙◌, inl, inr, List, some, Outcome, Ensures,
  Ensures.returns, Ensures.stops, Ensures-bind, arith, Bool-cases, ◌==◌, ==→eq, ==_false→ne, ltb,
  ltb→lt, ltb_false→le, Option,
}
use onlyio.Task.{RawTask, inc_rc, add_rc, set_multishot, augmente_syscall_nb}
use onlyio.Task.Store.{Store, update, write_cell, freed, modify, clone, release}
use onlyio.Task.Count.{inc_rc_lem, add_rc_lem}
use onlyio.Task.Release.{release-last, release-more}
use onlyio.Slab.{Slab}
use onlyio.Slab.Map.{lookup}
use onlyio.Runtime.Account.{Account, Live, Account-Live, recount, finish}

module _ {F : Type 0} where
  -- The header with `k` references more, of the same index
  abbrev pub Adds : ℕ → RawTask F → RawTask F → Type 0
  Adds k t t' =
      (t'.slab_idx ≡ t.slab_idx) × (t'.ref_counter ≡ t.ref_counter + k) × (t'.ref_counter < 2 ^ 16)

  pub inc_rc-Adds : (t : RawTask F) → t.ref_counter < 2 ^ 16 → Ensures (Adds 1 t) (inc_rc t)
  inc_rc-Adds t h = rw (inc_rc_lem t h) (elim (Bool-cases (ltb t.ref_counter 0xffff)) [
    | inl b ↦ rw b (returns (refl, refl, omega (arith, ltb→lt _ _ b)))
    | inr b ↦ rw b stops
  ])

  pub inc_rc-set_multishot-Adds :
      (t : RawTask F) → t.ref_counter < 2 ^ 16 → Ensures (Adds 1 t) (inc_rc (set_multishot t))
  unfolding set_multishot
  inc_rc-set_multishot-Adds t h = inc_rc-Adds (set_multishot t) h

  pub add_rc-Adds :
      (k : ℕ) (t : RawTask F)
      → k < 2 ^ 16
      → t.ref_counter < 2 ^ 16
      → Ensures (Adds k t) (add_rc t k)
  add_rc-Adds k t l h =
      rw (add_rc_lem t k h l) (elim (Bool-cases (ltb 0xffff (t.ref_counter + k))) [
        | inl b ↦ rw b stops
        | inr b ↦ elim (Bool-cases (k % 0x8000 == 0)) [
          | inl z ↦ rw (b, z) stops
          | inr z ↦ rw (b, z) (returns (refl, refl, omega (arith, ltb_false→le _ _ b)))
        ]
      ])

  pub augmente-Adds :
      (t : RawTask F) → t.ref_counter < 2 ^ 16 → Ensures (Adds 0 t) (augmente_syscall_nb t)
  unfolding augmente_syscall_nb
  augmente-Adds t h = elim (Bool-cases (ltb (t.syscall_nb % 0x8000 + 1) (2 ^ 16))) [
    | inl b ↦ rw b (returns (refl, omega arith, h))
    | inr b ↦ rw b stops
  ]

  module _ (s : Slab) (st : Store F) (fs : List ℕ) (claims : ℕ → ℕ) (i p : ℕ)
      (a : Account s st fs claims) (c : 0 < claims i) (found : lookup s i ≡ some p) where
    pub holder : (t : RawTask F) × Live s st i p t × (t.ref_counter ≡ claims i)
    holder = at_p (Account-Live s st fs claims i a c)
      where
        at_p :
            ((q : ℕ) × (t : RawTask F) × Live s st i q t × (t.ref_counter ≡ claims i))
            → (t : RawTask F) × Live s st i p t × (t.ref_counter ≡ claims i)
        at_p (q, t, l, e) = (
          t,
          record {
            found = found;
            cell = ap st.cells (ground (arith, l.found, found)) ∙ l.cell;
            own = l.own;
          },
          e,
        )

    pub modify-Account :
        (f : RawTask F → Outcome (RawTask F)) (k : ℕ)
        → ((t : RawTask F) → t.ref_counter < 2 ^ 16 → Ensures (Adds k t) (f t))
        → Ensures (λ st'. Account s st' fs (update claims i (claims i + k))) (modify f p st)
    modify-Account f k keeps =
        let (t, l, e) = holder in
        rw l.cell (
          Ensures-bind (keeps t (omega (arith, e, a.small i))) λ t' h. returns (
            subst (λ n. Account s (write_cell st p (some t')) fs (update claims i n))
              (omega (arith, h, e))
              (recount s st fs claims i p t a l c t' (h.0 ∙ l.own) (omega (arith, h, e, c)) h.2)))

    pub clone-Account :
        Ensures (λ st'. Account s st' fs (update claims i (claims i + 1))) (clone p st)
    unfolding clone
    clone-Account = modify-Account inc_rc 1 inc_rc-Adds

    pub release-Account :
        Ensures
          (λ (r : Option ℕ × Store F). Account s r.1 fs (update claims i (claims i - 1)))
          (release p st)
    release-Account =
        let (t, l, e) = holder in
        elim (Bool-cases (claims i == 1)) [
          | inl one ↦ rw (release-last p st l.cell (e ∙ ==→eq _ _ one)) (
              returns (
                subst (λ n. Account s (freed p t st) fs (update claims i n))
                  (omega (arith, ==→eq _ _ one))
                  (finish s st fs claims i p t a l c (==→eq _ _ one))))
          | inr more ↦ rw (release-more p st l.cell (omega (arith, e, c, ==_false→ne _ _ more))) (
              returns (
                subst
                  (λ n.
                    Account s
                      (write_cell st p (some (record t { ref_counter = t.ref_counter - 1 }))) fs
                      (update claims i n))
                  (omega (arith, e))
                  (recount s st fs claims i p t a l c (record t { ref_counter = t.ref_counter - 1 })
                    l.own (omega (arith, e, c, ==_false→ne _ _ more))
                    (omega (arith, e, a.small i)))))
        ]
