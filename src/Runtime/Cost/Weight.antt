-- ===== src/Runtime/Cost/Weight.antt =====
-- Bounds on what the live futures may still queue, whatever their addresses.
use onlyio.Base.{
  ℕ, zero, suc, ◌+◌, ◌≤◌, ◌<◌, ◌≡◌, refl, ap, false, Option, some, none, arith, ◌==◌, length,
  dec_lt,
}
use onlyio.Task.{RawTask}
use onlyio.Task.Store.{Store}
use onlyio.Runtime.{Runtime}

pub sum : (ℕ → ℕ) → ℕ → ℕ
sum f zero = 0
sum f (suc b) = f b + sum f b

sum-le : (f g : ℕ → ℕ) → ((j : ℕ) → g j ≤ f j) → (b : ℕ) → sum g b ≤ sum f b
unfolding sum
sum-le f g h zero = omega arith
sum-le f g h (suc b) = omega (arith, h b, sum-le f g h b)

sum_mono : (f : ℕ → ℕ) (b c : ℕ) → sum f b ≤ sum f (b + c)
unfolding sum
sum_mono f b zero = let e : b + 0 ≡ b = omega arith in rw e (omega arith)
sum_mono f b (suc c) =
    let e : b + suc c ≡ suc (b + c) = omega arith in rw e (omega (arith, sum_mono f b c))

module _ (f g : ℕ → ℕ) (q : ℕ) (h : (j : ℕ) → (q == j) ≡ false → g j ≤ f j) where
  sum-below : (b : ℕ) → b ≤ q → sum g b ≤ sum f b
  unfolding sum
  sum-below zero l = omega arith
  sum-below (suc b) l = omega (arith, h b (ground arith), sum-below b)

  -- The functions differ at `q` alone.
  sum-change : (b : ℕ) → q < b → sum g b + f q ≤ sum f b + g q
  unfolding sum
  sum-change zero l = absurd (omega arith)
  sum-change (suc b) l = elim (dec_lt q b) [
    | yes below ↦ omega (arith, h b (ground arith), sum-change b below)
    | no last ↦
        let e : b ≡ q = omega arith in omega (arith, sum-below b (omega arith), ap f e, ap g e)
  ]

-- All the sums of `f`, and `n` more, are within a bound.
abbrev pub Within : (ℕ → ℕ) → ℕ → ℕ → Type 0
Within f n bound = (b : ℕ) → sum f b + n ≤ bound

pub Within-le :
    (f g : ℕ → ℕ) (n bound : ℕ) → ((j : ℕ) → g j ≤ f j) → Within f n bound → Within g n bound
Within-le f g n bound h w b = omega (arith, sum-le f g h b, w b)

pub Within-change :
    (f g : ℕ → ℕ) (q n bound bound' : ℕ)
    → ((j : ℕ) → (q == j) ≡ false → g j ≤ f j)
    → bound + g q ≤ bound' + f q
    → Within f n bound
    → Within g n bound'
Within-change f g q n bound bound' h l w b =
    omega
      (arith, sum_mono g b (q + 1), sum-change f g q h (b + (q + 1)) (omega arith), w (b + (q + 1)))

sum-zero : (f : ℕ → ℕ) → ((j : ℕ) → f j ≡ 0) → (b : ℕ) → sum f b ≡ 0
unfolding sum
sum-zero f h zero = refl
sum-zero f h (suc b) = omega (arith, h b, sum-zero f h b)

pub Within-zero : (f : ℕ → ℕ) (n : ℕ) → ((j : ℕ) → f j ≡ 0) → n ≡ 0 → Within f n 0
Within-zero f n h e b = omega (arith, sum-zero f h b)

module _ {F : Type 0} where
  abbrev pub future_of : Option (RawTask F) → Option F
  future_of none = none
  future_of (some t) = some t.future

  -- The future in the block at an address
  abbrev pub future_at : Store F → ℕ → Option F
  future_at st q = future_of (st.cells q)

  module _ (rank : F → ℕ) where
    abbrev pub rank_of : Option F → ℕ
    rank_of none = 0
    rank_of (some f) = rank f

    -- The rank of the future at each address
    abbrev pub ranks : Store F → ℕ → ℕ
    ranks st q = rank_of (future_at st q)

    -- The entries that wait, and those that the live futures can still queue, are within the bound.
    abbrev pub Weighs : ℕ → Runtime F → Type 0
    Weighs bound rt = Within (ranks rt.store) (length rt.pending) bound
