-- ===== src/BufPool/Alloc.antt =====
-- Taking a write slot.
use onlyio.Base.{
  ℕ, ◌+◌, ◌-◌, ◌*◌, ◌≤◌, ◌<◌, ◌≡◌, refl, ap, Bool-cases, inl, inr, ltb→lt, ltb_false→le, le→ltb,
  ◌↔◌, List, [], ◌∷◌, some, ok, panics, expect_none, arith, length, get_elem?, set, count,
  get_elem?-set_self, get_elem?-some, lt-length, ltb,
}
use onlyio.BufPool.{BufPool, WBuffer, alloc_write, buf_size}
use onlyio.BufPool.Invariant.{WellFormed, HasRc, with_rc, with_rc-WellFormed, FreeStep}
use onlyio.BufPool.Handles.{IsHandle}

module _ (p : BufPool) (f : ℕ) (fs : List ℕ) (wf : WellFormed p) (e : p.write_free ≡ f ∷ fs) where
  listed : 0 < count f p.write_free
  listed = rw e (ground arith)

  in_pool : (p.read_count ≤ f) × (f < p.read_count + length p.write_rc)
  in_pool = (
    elim (Bool-cases (ltb f p.read_count)) [
      | inl b ↦ absurd (omega (arith, wf.below f (ltb→lt _ _ b), listed))
      | inr b ↦ ltb_false→le _ _ b
    ],
    elim (Bool-cases (ltb f (p.read_count + length p.write_rc))) [
      | inl b ↦ ltb→lt _ _ b
      | inr b ↦ absurd (omega (arith, wf.above f (ltb_false→le _ _ b), listed))
    ],
  )

  -- The slot at the head of the free list, counted from the first write slot, has no handle.
  head_HasRc : HasRc p (f - p.read_count) 0
  head_HasRc = unused (get_elem?-some p.write_rc (f - p.read_count) (omega (arith, in_pool)))
    where
      here : p.read_count + (f - p.read_count) ≡ f
      here = omega (arith, in_pool)

      unused :
          ((v : ℕ) × (get_elem? p.write_rc (f - p.read_count) ≡ some v))
          → HasRc p (f - p.read_count) 0
      unused (v, h) = ground (
        arith,
        h,
        wf.free_iff (f - p.read_count) v h,
        listed,
        here,
        ap (λ k. count k p.write_free) here,
      )

  alloc_write_lem :
      (n : ℕ)
      → alloc_write n p
        ≡ ok (
          record { ptr = p.base + f * buf_size n; abs_idx = f },
          with_rc p (f - p.read_count) 1 fs,
        )
  unfolding alloc_write
  alloc_write_lem n = rw (e, le→ltb f p.read_count in_pool.0, head_HasRc)

  head_FreeStep : FreeStep p (f - p.read_count) 0 1 fs
  head_FreeStep a =
      let here : p.read_count + (f - p.read_count) ≡ f = omega (arith, in_pool) in
      rw (e, here) (ground arith)

-- `alloc_write` on a well-formed pool with a free slot gives out the one that has been free longest:
-- it had no handle and has one now, the handle points to its memory, and the other slots and the
-- order of the remaining free ones are unchanged.
pub alloc_write-Allocs :
    (n : ℕ) (p : BufPool) (f : ℕ) (fs : List ℕ)
    → WellFormed p
    → p.write_free ≡ f ∷ fs
    → (w : WBuffer) × (p' : BufPool) × (rel : ℕ) × (alloc_write n p ≡ ok (w, p'))
      × WellFormed p'
      × IsHandle p w rel
      × (w.ptr ≡ p.base + w.abs_idx * buf_size n)
      × HasRc p rel 0
      × HasRc p' rel 1
      × (p'.write_free ≡ fs)
      × (p'.write_rc ≡ set p.write_rc rel 1)
alloc_write-Allocs n p f fs wf e = (
  record { ptr = p.base + f * buf_size n; abs_idx = f },
  with_rc p (f - p.read_count) 1 fs,
  f - p.read_count,
  alloc_write_lem p f fs wf e n,
  with_rc-WellFormed p (f - p.read_count) 0 1 fs wf (head_HasRc p f fs wf e) (omega arith)
      (head_FreeStep p f fs wf e),
  omega (arith, in_pool p f fs wf e),
  refl,
  head_HasRc p f fs wf e,
  get_elem?-set_self p.write_rc (f - p.read_count) 1
      (lt-length p.write_rc (f - p.read_count) (head_HasRc p f fs wf e)),
  refl,
  refl,
)

alloc_write-nil : (n : ℕ) (p : BufPool) → p.write_free ≡ [] → alloc_write n p ≡ panics expect_none
unfolding alloc_write
alloc_write-nil n p e = rw e

-- `alloc_write` on a well-formed pool panics exactly if every write slot has a handle.
pub alloc_write-panics_iff :
    (n : ℕ) (p : BufPool)
    → WellFormed p
    → (alloc_write n p ≡ panics expect_none) ↔ ((rel v : ℕ) → HasRc p rel v → 0 < v)
alloc_write-panics_iff n p wf = by_list p.write_free refl
  where
    by_list :
        (free : List ℕ)
        → p.write_free ≡ free
        → (alloc_write n p ≡ panics expect_none) ↔ ((rel v : ℕ) → HasRc p rel v → 0 < v)
    by_list [] e = (
      λ h rel v r. ground (arith, wf.free_iff rel v r, ap (count (p.read_count + rel)) e),
      λ h. alloc_write-nil n p e,
    )
    by_list (f ∷ fs) e = (
      λ h. absurd (cc (alloc_write_lem p f fs wf e n)),
      λ h. absurd (omega (arith, h (f - p.read_count) 0 (head_HasRc p f fs wf e))),
    )
