-- ===== src/Runtime/Loop/Quiet.antt =====
-- The wake list of a runtime whose wakers have not been used.
use onlyio.Base.{ℕ, zero, suc, Bool, ◌≡◌, refl, ◌⊎◌, inl, inr, List, [], ◌∷◌, some, Outcome, ok}
use onlyio.Runtime.{Runtime}
use onlyio.Runtime.Loop.{drain}

pub list_cases : {A : Type 0} (xs : List A) → (xs ≡ []) ⊎ ((x : A) × (ys : List A) × (xs ≡ x ∷ ys))
list_cases [] = inl refl
list_cases (x ∷ xs) = inr (x, xs, refl)

module _ {F : Type 0} (poll_fn : F → Runtime F → Outcome (F × Runtime F)) (more : ℕ → Bool) where
  pub drain-quiet :
      (wakes : ℕ) (rt : Runtime F) → rt.wake_list ≡ [] → drain poll_fn more wakes rt ≡ ok (some rt)
  unfolding drain
  drain-quiet zero rt q = rw q refl
  drain-quiet (suc wakes) rt q = rw q refl
