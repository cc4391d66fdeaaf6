-- ===== src/Task/Release.antt =====
-- Cloning and releasing handles of a task.
use onlyio.Base.{
  refl, ◌∷◌, ℕ, zero, suc, ◌+◌, ◌-◌, ◌<◌, ◌≡◌, sym, ap, ap₂, ◌∙◌, Option, none, some, ok, undefined,
  Outcome, ◌>>=◌, arith,
}
use mathlib.Core.Path.{fun_ext}
use onlyio.Task.{RawTask}
use onlyio.Task.Store.{Store, update, write_cell, freed, clone, release}
use onlyio.Task.Count.{inc_rc_lem}

module _ {ℓ} {A : Type ℓ} where
  pub update_self : (f : ℕ → A) (p : ℕ) (a : A) → f p ≡ a → update f p a ≡ f
  update_self f p a e = fun_ext λ q. ground arith

  pub update-update : (f : ℕ → A) (p : ℕ) (a b : A) → update (update f p a) p b ≡ update f p b
  update-update f p a b = fun_ext λ q. ground arith

module _ {F : Type 0} where
  -- `k` releases of one handle after another
  unfoldable pub releases : ℕ → ℕ → Store F → Outcome (Store F)
  releases zero p s = ok s
  releases (suc k) p s = release p s >>= λ r. releases k p r.1

  pub release-last :
      (p : ℕ) (s : Store F) {t : RawTask F}
      → s.cells p ≡ some t
      → t.ref_counter ≡ 1
      → release p s ≡ ok (none, freed p t s)
  unfolding release
  release-last p s e c = ground arith

  pub release-more :
      (p : ℕ) (s : Store F) {t : RawTask F}
      → s.cells p ≡ some t
      → 1 < t.ref_counter
      → release p s
        ≡ ok (
          some (t.ref_counter - 1),
          write_cell s p (some (record t { ref_counter = t.ref_counter - 1 })),
        )
  unfolding release
  release-more p s e c = ground arith

  write_cell_self :
      (s : Store F) (p : ℕ) (c : Option (RawTask F)) → s.cells p ≡ c → write_cell s p c ≡ s
  write_cell_self s p c e = ap (λ f. record s { cells = f }) (update_self s.cells p c e)

  pub write_cell-write_cell :
      (s : Store F) (p : ℕ) (c d : Option (RawTask F))
      → write_cell (write_cell s p c) p d ≡ write_cell s p d
  write_cell-write_cell s p c d = ap (λ f. record s { cells = f }) (update-update s.cells p c d)

  pub clone-live :
      (p : ℕ) (s : Store F) {t : RawTask F}
      → s.cells p ≡ some t
      → t.ref_counter < 0xffff
      → clone p s ≡ ok (write_cell s p (some (record t { ref_counter = t.ref_counter + 1 })))
  unfolding clone
  clone-live p s {t} e h = ground (arith, inc_rc_lem t)

  pub cell-write_cell :
      (s : Store F) (p : ℕ) (c : Option (RawTask F)) → (write_cell s p c).cells p ≡ c
  cell-write_cell s p c = ground arith

  -- A clone and a release of it leave every block, the free list and the dropped futures as they
  -- were, for a live task whose count is neither 0 nor 0xffff; the release reports that count.
  pub release-clone :
      (p : ℕ) (s : Store F) (t : RawTask F)
      → s.cells p ≡ some t
      → 0 < t.ref_counter
      → t.ref_counter < 0xffff
      → (clone p s >>= release p) ≡ ok (some t.ref_counter, s)
  release-clone p s t e l h = rw (clone-live p s e h) (
      release-more p (write_cell s p (some up)) {t = up} (cell-write_cell s p (some up))
        (omega arith)
      ∙ ap ok (ap₂ (λ (n : ℕ) (r : Store F). (some n, r)) (omega arith) back))
    where
      up : RawTask F
      up = record t { ref_counter = t.ref_counter + 1 }

      back :
          write_cell
            (write_cell s p (some (record t { ref_counter = t.ref_counter + 1 })))
            p
            (some (record t { ref_counter = t.ref_counter + 1 - 1 }))
          ≡ s
      back =
          write_cell-write_cell s p _ _
          ∙ write_cell_self s p _ (e ∙ ap (λ n. some (record t { ref_counter = n })) (omega arith))

  -- A task with the count `c`, at least 1, survives any `k` releases with `k` below `c`: its block
  -- has the count `c` less `k` and all else is as it was.
  pub releases-below :
      (k p : ℕ) (s : Store F) (t : RawTask F)
      → s.cells p ≡ some t
      → k < t.ref_counter
      → releases k p s ≡ ok (write_cell s p (some (record t { ref_counter = t.ref_counter - k })))
  unfolding releases
  releases-below zero p s t e h = ap ok (
      sym (write_cell_self s p _ (e ∙ ap (λ n. some (record t { ref_counter = n })) (omega arith))))
  releases-below (suc k) p s t e h = rw (release-more p s e (omega arith)) (
      releases-below k p _ (record t { ref_counter = t.ref_counter - 1 }) (cell-write_cell s p _)
        (omega arith)
      ∙ ap ok (
          write_cell-write_cell s p _ _
          ∙ ap (λ n. write_cell s p (some (record t { ref_counter = n }))) (omega arith)))

  releases-all :
      (k p : ℕ) (s : Store F) (t : RawTask F)
      → s.cells p ≡ some t
      → t.ref_counter ≡ suc k
      → (releases (suc k) p s ≡ ok (freed p t s)) × (releases (suc (suc k)) p s ≡ undefined)
  unfolding releases release
  releases-all zero p s t e h = (ground arith, ground arith)
  releases-all (suc k) p s t e h = rw (release-more p s e (omega arith)) (
      let ih =
        releases-all k p (write_cell s p (some (record t { ref_counter = t.ref_counter - 1 })))
          (record t { ref_counter = t.ref_counter - 1 }) (cell-write_cell s p _) (omega arith) in
      (
        ih.0 ∙ ap (λ f. ok (record (freed p t s) { cells = f })) (update-update s.cells p _ none),
        ih.1,
      ))

  -- `c` releases of a live task with the count `c` drop its future once, free its block and hand its
  -- slab index to the free list once, and change no other block; the last of them has read the count
  -- back from the block that it had freed, once, which is undefined behaviour in the source and
  -- recorded in `stale_reads`. Any `k` releases with `k` below `c` only take `k` from its count and
  -- read no freed block. One release more than `c` begins with an access to the freed block.
  pub releases_lem :
      (k p : ℕ) (s : Store F) (t : RawTask F)
      → s.cells p ≡ some t
      → k < t.ref_counter
      → (releases t.ref_counter p s ≡ ok (freed p t s))
        × ((freed p t s).stale_reads ≡ p ∷ s.stale_reads)
        × (releases k p s
            ≡ ok (write_cell s p (some (record t { ref_counter = t.ref_counter - k }))))
        × (releases (suc t.ref_counter) p s ≡ undefined)
  releases_lem k p s t e h =
      let c : t.ref_counter ≡ suc (t.ref_counter - 1) = omega arith in
      let all = releases-all (t.ref_counter - 1) p s t e c in
      (
        ap (λ n. releases n p s) c ∙ all.0,
        refl,
        releases-below k p s t e h,
        ap (λ n. releases (suc n) p s) c ∙ all.1,
      )
