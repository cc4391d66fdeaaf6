-- ===== src/Words/Bits.antt =====
-- The arithmetic of `Words` against the native bit operations.
use Prim.Native.Nat.{bit_and, bit_or}
use onlyio.Base.{
  ℕ, zero, suc, ◌-◌, ◌<◌, ◌≡◌, refl, Bool, true, ◌&&◌, arith, ◌==◌, if◌then◌else◌, false, sym, inl,
  inr, Bool-cases, ==→eq, ==_false→ne,
}
use onlyio.Words.{multiple_mask, rank, multiple_bit, set_multiple, u16_mod}

-- A test of the first `n` words
unfoldable pub holds_below : (ℕ → Bool) → ℕ → Bool
holds_below test zero = true
holds_below test (suc n) = if test n then holds_below test n else false

pub holds_below-at : (test : ℕ → Bool) (n x : ℕ) → holds_below test n ≡ true → x < n → test x ≡ true
unfolding holds_below
holds_below-at test zero x all below = absurd (omega arith)
holds_below-at test (suc n) x all below = elim (Bool-cases (n == x)) [
  | inl e ↦ rw (sym (==→eq n x e)) (ground arith)
  | inr e ↦ holds_below-at test n x (ground arith) (omega (arith, ==_false→ne n x e))
]

mask_test : ℕ → Bool
mask_test x =
    (bit_and x (0xffff - multiple_mask) == rank x)
    && (bit_and x multiple_mask == multiple_bit x)
    && (bit_or x multiple_mask == set_multiple x)

mask_table : holds_below mask_test u16_mod ≡ true
unfolding holds_below mask_test
mask_table = refl

mask_lem :
    (x : ℕ)
    → x < u16_mod
    → (bit_and x (0xffff - multiple_mask) ≡ rank x)
      × (bit_and x multiple_mask ≡ multiple_bit x)
      × (bit_or x multiple_mask ≡ set_multiple x)
unfolding mask_test
mask_lem x h = ground (arith, holds_below-at mask_test u16_mod x mask_table h)
