-- ===== src/BufPool/Handles.antt =====
-- Cloning and dropping handles of write slots.
use onlyio.Base.{
  ℕ, ◌+◌, ◌-◌, ◌%◌, ◌<◌, ◌^◌, ◌≡◌, refl, List, [], ◌∷◌, ◌++◌, ok, arith, set, if◌then◌else◌, ◌==◌,
  get_elem?-set_self, lt-length, count-append, le→ltb, lt→ltb,
}
use onlyio.Sqe.{Entry, write_fixed}
use onlyio.UserData.Internal.{wbuf_write_udata}
use onlyio.BufPool.{BufPool, WBuffer, on_write_cqe, drop, clone, submit}
use onlyio.BufPool.Invariant.{WellFormed, HasRc, with_rc, with_rc-WellFormed, FreeStep}

-- A handle on the write slot `rel`
abbrev pub IsHandle : BufPool → WBuffer → ℕ → Type 0
IsHandle p w rel = w.abs_idx ≡ p.read_count + rel

-- The free list when the slot `abs_idx` has `v` handles left
abbrev pub given_back : BufPool → ℕ → ℕ → List ℕ
given_back p abs_idx v = if v == 0 then p.write_free ++ abs_idx ∷ [] else p.write_free

add_sub : (a b : ℕ) → a + b - a ≡ b
add_sub a b = omega arith

pub on_write_cqe_lem :
    (p : BufPool) (rel v : ℕ)
    → HasRc p rel v
    → 0 < v
    → on_write_cqe p (p.read_count + rel)
      ≡ ok (with_rc p rel (v - 1) (given_back p (p.read_count + rel) (v - 1)))
unfolding on_write_cqe
on_write_cqe_lem p rel v h pos = rw (
  le→ltb (p.read_count + rel) p.read_count (omega arith),
  add_sub p.read_count rel,
  h,
  lt→ltb 0 v pos,
)

given_back-FreeStep :
    (p : BufPool) (rel v : ℕ)
    → 0 < v
    → FreeStep p rel v (v - 1) (given_back p (p.read_count + rel) (v - 1))
given_back-FreeStep p rel v pos a =
    ground (arith, count-append a p.write_free ((p.read_count + rel) ∷ []))

-- Dropping one of `v` handles of a write slot keeps the pool well formed and leaves `v - 1`; the slot
-- goes to the back of the free list exactly if that is 0, and every other slot keeps its count.
pub drop-Drops :
    (p : BufPool) (w : WBuffer) (rel v : ℕ)
    → WellFormed p
    → IsHandle p w rel
    → HasRc p rel v
    → 0 < v
    → (p' : BufPool) × (drop p w ≡ ok p')
      × WellFormed p'
      × HasRc p' rel (v - 1)
      × (p'.write_free ≡ (if v - 1 == 0 then p.write_free ++ w.abs_idx ∷ [] else p.write_free))
      × (p'.write_rc ≡ set p.write_rc rel (v - 1))
unfolding drop
drop-Drops p w rel v wf i h pos = (
  with_rc p rel (v - 1) (given_back p (p.read_count + rel) (v - 1)),
  rw i (on_write_cqe_lem p rel v h pos),
  with_rc-WellFormed p rel v (v - 1) _ wf h (omega (arith, wf.counted rel v h))
      (given_back-FreeStep p rel v pos),
  get_elem?-set_self p.write_rc rel (v - 1) (lt-length p.write_rc rel h),
  rw i,
  refl,
)

pub clone_lem :
    (p : BufPool) (w : WBuffer) (rel v : ℕ)
    → IsHandle p w rel
    → HasRc p rel v
    → 0 < v
    → v + 1 < 2 ^ 32
    → clone p w ≡ ok (w, with_rc p rel (v + 1) p.write_free)
unfolding clone
clone_lem p w rel v i h pos fits = rw (
  i,
  le→ltb (p.read_count + rel) p.read_count (omega arith),
  add_sub p.read_count rel,
  h,
  lt→ltb 0 v pos,
  lt→ltb (v + 1) (2 ^ 32) fits,
)

-- Cloning a handle of a write slot with `v` handles, at least 1 and fewer than a `u32` can count,
-- keeps the pool well formed, makes them `v + 1`, and leaves the free list and every other slot.
pub clone-Clones :
    (p : BufPool) (w : WBuffer) (rel v : ℕ)
    → WellFormed p
    → IsHandle p w rel
    → HasRc p rel v
    → 0 < v
    → v + 1 < 2 ^ 32
    → (p' : BufPool) × (clone p w ≡ ok (w, p'))
      × WellFormed p'
      × HasRc p' rel (v + 1)
      × (p'.write_free ≡ p.write_free)
      × (p'.write_rc ≡ set p.write_rc rel (v + 1))
clone-Clones p w rel v wf i h pos fits = (
  with_rc p rel (v + 1) p.write_free,
  clone_lem p w rel v i h pos fits,
  with_rc-WellFormed p rel v (v + 1) p.write_free wf h fits (λ a. ground arith),
  get_elem?-set_self p.write_rc rel (v + 1) (lt-length p.write_rc rel h),
  refl,
  refl,
)

-- `submit` of the only handle of a slot queues a write from the slot's memory and at once puts the
-- slot back on the free list, without a handle, while the write is still pending.
pub submit-frees :
    (p : BufPool) (w : WBuffer) (pending : List Entry) (rel fd len : ℕ)
    → WellFormed p
    → IsHandle p w rel
    → HasRc p rel 1
    → (p' : BufPool) × (submit p pending w fd len
        ≡ ok (
          pending
              ++ record {
                op = write_fixed fd w.ptr len (w.abs_idx % 2 ^ 16);
                user_data = wbuf_write_udata w.abs_idx;
              }
                ∷ [],
          p',
        ))
      × HasRc p' rel 0
      × (p'.write_free ≡ p.write_free ++ w.abs_idx ∷ [])
unfolding submit
submit-frees p w pending rel fd len wf i h = (
  with_rc p rel 0 (p.write_free ++ w.abs_idx ∷ []),
  rw (i, on_write_cqe_lem p rel 1 h (omega arith)),
  get_elem?-set_self p.write_rc rel 0 (lt-length p.write_rc rel h),
  refl,
)
