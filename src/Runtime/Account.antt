-- ===== src/Runtime/Account.antt =====
-- Who holds references to which task: each slab index with the number of claims on it.
pub mod Claims
use onlyio.Base.{
  ℕ, zero, suc, ◌+◌, ◌-◌, ◌^◌, ◌≤◌, ◌<◌, ◌≡◌, ◌≢◌, refl, sym, ap, subst, ◌∙◌, ◌⊎◌, inl, inr, Bool,
  List, [], ◌∷◌, ◌++◌, Option, none, some, Outcome, ok, Ensures, Ensures.returns, Ensures.stops,
  arith, count, count-append, Option-cases, Bool-cases, if◌then◌else◌, ◌==◌, ==→eq, ==_false→ne,
  ne→==, eq→==,
}
use mathlib.Core.Path.{fun_ext}
use onlyio.Task.{RawTask}
use onlyio.Task.Store.{Store, update, write_cell, freed, clone, release}
use onlyio.Task.Count.{inc_rc_lem}
use onlyio.Slab
use onlyio.Slab.{Slab}
use onlyio.Slab.Invariant.{WellFormed}
use onlyio.Slab.Map.{lookup, index_lem}

update_ne {ℓ} : {A : Type ℓ} (f : ℕ → A) (p q : ℕ) (a : A) → p ≢ q → update f p a q ≡ f q
update_ne f p q a ne = rw (ne→== p q ne)

module _ {F : Type 0} where
  -- The slab index `i` holds the block at `p`, whose header is `t` and knows the index.
  pub record Live (s : Slab) (st : Store F) (i p : ℕ) (t : RawTask F) : Type 0 where
    pub found : lookup s i ≡ some p
    pub cell : st.cells p ≡ some t
    pub own : t.slab_idx ≡ some i

  -- Every occupied index is that of a live task, whose count is the number of claims on it, at least
  -- one; or of a task that has finished, once on the free list and without a claim. There is no claim
  -- on a free index.
  pub record Account (s : Slab) (st : Store F) (fs : List ℕ) (claims : ℕ → ℕ) : Type 0 where
    pub wf : WellFormed s fs
    pub live :
        (i p : ℕ)
        → lookup s i ≡ some p
        → count i st.free_list ≡ 0
        → (t : RawTask F) × Live s st i p t × (t.ref_counter ≡ claims i)
    pub claimed : (i p : ℕ) → lookup s i ≡ some p → count i st.free_list ≡ 0 → 0 < claims i
    pub small : (i : ℕ) → claims i < 2 ^ 16
    pub gone : (i : ℕ) → 0 < count i st.free_list → claims i ≡ 0
    pub once : (i : ℕ) → count i st.free_list ≤ 1
    pub unused : (i : ℕ) → lookup s i ≡ none → (claims i ≡ 0) × (count i st.free_list ≡ 0)

  -- An index with a claim is that of a live task.
  pub Account-Live :
      (s : Slab) (st : Store F) (fs : List ℕ) (claims : ℕ → ℕ) (i : ℕ)
      → Account s st fs claims
      → 0 < claims i
      → (p : ℕ) × (t : RawTask F) × Live s st i p t × (t.ref_counter ≡ claims i)
  Account-Live s st fs claims i a c = elim (Option-cases (lookup s i)) [
    | inl e ↦ absurd (omega (arith, a.unused i e))
    | inr (p, e) ↦ let l = a.live i p e (none_gone (a.gone i) c) in (p, l.0, l.1, l.2)
  ]
    where
      none_gone :
          (0 < count i st.free_list → claims i ≡ 0) → 0 < claims i → count i st.free_list ≡ 0
      none_gone g c = ground arith

  pub Account-ext :
      (s : Slab) (st : Store F) (fs : List ℕ) {claims claims' : ℕ → ℕ}
      → ((i : ℕ) → claims i ≡ claims' i)
      → Account s st fs claims
      → Account s st fs claims'
  Account-ext s st fs e a = subst (Account s st fs) (fun_ext e) a

  -- A live task's header changes, and with it its count.
  module _ (s : Slab) (st : Store F) (fs : List ℕ) (claims : ℕ → ℕ) (i p : ℕ) (t : RawTask F)
      (a : Account s st fs claims) (l : Live s st i p t) (c : 0 < claims i) where
    apart : (j q : ℕ) (u : RawTask F) → Live s st j q u → i ≢ j → p ≢ q
    apart j q u k ne e = ne (ground (arith, l.cell, k.cell, l.own, k.own, e))

    recounted :
        (t' : RawTask F)
        → t'.slab_idx ≡ some i
        → (j q : ℕ) → lookup s j ≡ some q
        → count j st.free_list ≡ 0
        → (u : RawTask F) × Live s (write_cell st p (some t')) j q u
          × (u.ref_counter ≡ update claims i t'.ref_counter j)
    recounted t' own j q e g = elim (Bool-cases (i == j)) [
      | inl same ↦ (
        t',
        record {
          found = e;
          cell = ground (arith, same, e, l.found);
          own = ground (arith, same, own);
        },
        rw same,
      )
      | inr other ↦
          let k = a.live j q e g in
          (
            k.0,
            record {
              found = e;
              cell =
                  update_ne st.cells p q (some t') (apart j q k.0 k.1 (==_false→ne i j other))
                  ∙ k.1.cell;
              own = k.1.own;
            },
            k.2 ∙ sym (update_ne claims i j t'.ref_counter (==_false→ne i j other)),
          )
    ]

    pub recount :
        (t' : RawTask F)
        → t'.slab_idx ≡ some i
        → 0 < t'.ref_counter
        → t'.ref_counter < 2 ^ 16
        → Account s (write_cell st p (some t')) fs (update claims i t'.ref_counter)
    recount t' own pos fits = record {
      wf = a.wf;
      live = recounted t' own;
      claimed = λ j q e g. ground (arith, a.claimed j q e g);
      small = λ j. ground (arith, a.small j);
      gone = λ j g. ground (arith, a.gone j g, a.gone i);
      once = a.once;
      unused = λ j e. ground (arith, a.unused j e, l.found);
    }

    -- The store when the task is dropped and freed
    abbrev without : Store F
    without = record {
      cells = update st.cells p none;
      free_list = st.free_list ++ i ∷ [];
      dropped = t.future ∷ st.dropped;
      stale_reads = p ∷ st.stale_reads;
    }

    freed-own : freed p t st ≡ without
    freed-own = rw l.own

    -- The last claim goes, and the task with it.
    finished :
        claims i ≡ 1
        → (j q : ℕ) → lookup s j ≡ some q
        → count j (st.free_list ++ i ∷ []) ≡ 0
        → (u : RawTask F) × Live s without j q u × (u.ref_counter ≡ update claims i 0 j)
    finished one j q e g =
        let other : i ≢ j = λ same. ground (arith, same, g, count-append j st.free_list (i ∷ [])) in
        let k = a.live j q e (omega (arith, g, count-append j st.free_list (i ∷ []))) in
        (
          k.0,
          record {
            found = e;
            cell = update_ne st.cells p q none (apart j q k.0 k.1 other) ∙ k.1.cell;
            own = k.1.own;
          },
          k.2 ∙ sym (update_ne claims i j 0 other),
        )

    pub finish : claims i ≡ 1 → Account s (freed p t st) fs (update claims i 0)
    finish one =
        subst (λ m. Account s m fs (update claims i 0)) (sym freed-own)
          (record {
            wf = a.wf;
            live = finished one;
            claimed =
                λ j q e g. ground (arith, a.claimed j q e, g, count-append j st.free_list (i ∷ []));
            small = λ j. ground (arith, a.small j);
            gone = λ j g. ground (arith, a.gone j, g, count-append j st.free_list (i ∷ []));
            once = λ j. ground (arith, a.once j, a.gone i, count-append j st.free_list (i ∷ []));
            unused =
                λ j e. ground (arith, a.unused j e, l.found, count-append j st.free_list (i ∷ []));
          })
