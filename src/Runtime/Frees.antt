-- ===== src/Runtime/Frees.antt =====
-- `free_unsed_slab_slot` of src/runtime.rs.
use onlyio.Base.{
  ℕ, ◌+◌, ◌≡◌, refl, List, [], ◌∷◌, none, some, ok, arith, length, count, ltb, if◌then◌else◌, ◌==◌,
  Distinct, Distinct-tail, Distinct-head,
}
use onlyio.Slab.{Slab}
use onlyio.Slab.Invariant.{WellFormed}
use onlyio.Slab.Map.{lookup}
use onlyio.Slab.Remove.{remove-Removes}
use onlyio.Runtime.{Runtime}
use onlyio.Runtime.Dispatch.{remove_all, free_unsed_slab_slot}

-- Every index of the list is occupied.
abbrev pub Occupied : Slab → List ℕ → Type 0
Occupied s [] = Unit {0}
Occupied s (i ∷ is) = ((w : ℕ) × (lookup s i ≡ some w)) × Occupied s is

-- The slab without these entries
abbrev pub Without : Slab → List ℕ → Slab → Type 0
Without s is s' =
    ((fs' : List ℕ) × WellFormed s' fs')
    × ((j : ℕ) → lookup s' j ≡ (if ltb 0 (count j is) then none else lookup s j))
    × (s'.task_count + length is ≡ s.task_count)

Occupied-after :
    (s s' : Slab) (i : ℕ) (is : List ℕ)
    → ((j : ℕ) → lookup s' j ≡ (if i == j then none else lookup s j))
    → count i is ≡ 0
    → Occupied s is
    → Occupied s' is
Occupied-after s s' i [] h c o = tt
Occupied-after s s' i (j ∷ js) h c ((w, e), o) =
    ((w, ground (arith, h j, e)), Occupied-after s s' i js h (omega arith) o)

pub remove_all-Without :
    (is : List ℕ) (s : Slab) (fs : List ℕ)
    → WellFormed s fs
    → Distinct is
    → Occupied s is
    → (s' : Slab) × (remove_all is s ≡ ok s') × Without s is s'
unfolding remove_all
remove_all-Without [] s fs wf d o = (s, refl, ((fs, wf), λ j. refl, omega arith))
remove_all-Without (i ∷ is) s fs wf d ((w, e), o) =
    let (s₁, removed, dropped, wf₁, at, c, h) = remove-Removes s fs i w wf e in
    let rest =
      remove_all-Without is s₁ (i ∷ fs) wf₁ (Distinct-tail i is d)
        (Occupied-after s s₁ i is at (Distinct-head i is d) o) in
    (
      rest.0,
      rw dropped rest.1,
      (rest.2.0, λ j. ground (arith, rest.2.1 j, at j), omega (arith, rest.2.2, c)),
    )

-- If, on a well-formed slab, every index on the free list of finished tasks is occupied and on it once,
-- then `free_unsed_slab_slot` empties that list and takes exactly these entries out of the slab, which
-- stays well formed and counts as many tasks fewer.
pub free_unsed_slab_slot-Without :
    {F : Type 0} (rt : Runtime F) (fs : List ℕ)
    → WellFormed rt.tasks fs
    → Distinct rt.store.free_list
    → Occupied rt.tasks rt.store.free_list
    → (s' : Slab) × (free_unsed_slab_slot rt
        ≡ ok (record rt { tasks = s'; store = record rt.store { free_list = [] } }))
      × Without rt.tasks rt.store.free_list s'
unfolding free_unsed_slab_slot
free_unsed_slab_slot-Without rt fs wf d o =
    let all = remove_all-Without rt.store.free_list rt.tasks fs wf d o in (all.0, rw all.1, all.2)
