-- ===== src/BufPool/Invariant.antt =====
-- The invariant of the write pool: a slot is on the free list exactly if it has no handle.
use onlyio.Base.{
  ℕ, zero, suc, ◌+◌, ◌-◌, ◌*◌, ◌≤◌, ◌<◌, ◌^◌, ◌≡◌, refl, List, some, ok, arith, length, get_elem?,
  set, count, if◌then◌else◌, ◌==◌, get_elem?-set_self, get_elem?-set_ne, length-set, lt-length,
}
use onlyio.BufPool.{BufPool, range, replicate, new, buf_size}

-- The number of handles on the write slot `rel`, counted from the first one
abbrev pub HasRc : BufPool → ℕ → ℕ → Type 0
HasRc p rel v = get_elem? p.write_rc rel ≡ some v

pub record WellFormed (p : BufPool) : Type 0 where
  pub below : (a : ℕ) → a < p.read_count → count a p.write_free ≡ 0
  pub above : (a : ℕ) → p.read_count + length p.write_rc ≤ a → count a p.write_free ≡ 0
  pub free_iff :
      (rel v : ℕ)
      → HasRc p rel v
      → count (p.read_count + rel) p.write_free ≡ (if v == 0 then 1 else 0)
  pub counted : (rel v : ℕ) → HasRc p rel v → v < 2 ^ 32
  pub indexed : p.read_count + length p.write_rc < 2 ^ 32

get_elem?-replicate : (k a i : ℕ) {v : ℕ} → get_elem? (replicate k a) i ≡ some v → v ≡ a
get_elem?-replicate zero a i e = absurd (cc)
get_elem?-replicate (suc k) a zero e = ground arith
get_elem?-replicate (suc k) a (suc i) e = get_elem?-replicate k a i e

count-range_below : (k i a : ℕ) → a < i → count a (range k i) ≡ 0
count-range_below zero i a h = refl
count-range_below (suc k) i a h = ground (arith, count-range_below k (i + 1) a)

pub count-range_above : (k i a : ℕ) → i + k ≤ a → count a (range k i) ≡ 0
count-range_above zero i a h = refl
count-range_above (suc k) i a h = ground (arith, count-range_above k (i + 1) a)

pub count-range_in : (k i a : ℕ) → i ≤ a → a < i + k → count a (range k i) ≡ 1
count-range_in zero i a l h = absurd (omega arith)
count-range_in (suc k) i a l h =
    ground (arith, count-range_below k (i + 1) a, count-range_in k (i + 1) a)

length-replicate : (k a : ℕ) → length (replicate k a) ≡ k
length-replicate zero a = refl
length-replicate (suc k) a = omega (arith, length-replicate k a)

abbrev pub zero_test : ℕ → ℕ
zero_test v = if v == 0 then 1 else 0

-- The free list changes by the slot exactly as its count becomes or stops to be 0.
abbrev pub FreeStep : BufPool → ℕ → ℕ → ℕ → List ℕ → Type 0
FreeStep p rel v v' free' =
    (a : ℕ)
    → count a free' + (if a == p.read_count + rel then zero_test v else 0)
      ≡ count a p.write_free + (if a == p.read_count + rel then zero_test v' else 0)

abbrev pub with_rc : BufPool → ℕ → ℕ → List ℕ → BufPool
with_rc p rel v' free' = record p { write_rc = set p.write_rc rel v'; write_free = free' }

module _ (p : BufPool) (rel v v' : ℕ) (free' : List ℕ) (wf : WellFormed p) (here : HasRc p rel v)
    (fits : v' < 2 ^ 32) (step : FreeStep p rel v v' free') where
  in_range : rel < length p.write_rc
  in_range = lt-length p.write_rc rel here

  HasRc-set :
      (r w : ℕ) → HasRc (with_rc p rel v' free') r w → (if r == rel then w ≡ v' else HasRc p r w)
  HasRc-set r w h =
      ground
        (arith, get_elem?-set_self p.write_rc rel v' in_range, get_elem?-set_ne p.write_rc rel r v')

  pub with_rc-WellFormed : WellFormed (with_rc p rel v' free')
  with_rc-WellFormed = record {
    below = λ a h. ground (arith, wf.below a h, step a);
    above = λ a h. ground (arith, length-set p.write_rc rel v', in_range, wf.above a, step a);
    free_iff = λ r w h.
        ground (
          arith,
          HasRc-set r w h,
          step (p.read_count + r),
          wf.free_iff r w,
          wf.free_iff rel v here,
        );
    counted = λ r w h. ground (arith, HasRc-set r w h, wf.counted r w);
    indexed = omega (arith, wf.indexed, length-set p.write_rc rel v');
  }

-- A new pool of both kinds of slots, whose indices fit in 32 bits and whose bytes in the address
-- space, is well formed: every write slot is free, in order, and has no handle.
pub new-WellFormed :
    (n base read_count write_count : ℕ)
    → 0 < read_count
    → 0 < write_count
    → read_count + write_count < 2 ^ 32
    → (read_count + write_count) * buf_size n ≤ 2 ^ 63 - 4096
    → (p : BufPool) × (new n base read_count write_count ≡ ok p)
      × WellFormed p
      × (p.write_free ≡ range write_count read_count)
      × (p.write_rc ≡ replicate write_count 0)
unfolding new
new-WellFormed n base r w hr hw ht hb = (pool, ground arith, pool-WellFormed, refl, refl)
  where
    pool : BufPool
    pool = record { base = base; read_count = r; write_free = range w r; write_rc = replicate w 0 }

    pool-WellFormed : WellFormed pool
    pool-WellFormed = record {
      below = λ a h. count-range_below w r a h;
      above = λ a h. count-range_above w r a (omega (arith, length-replicate w 0));
      free_iff = λ rel v h. ground (
        arith,
        get_elem?-replicate w 0 rel h,
        lt-length (replicate w 0) rel h,
        length-replicate w 0,
        count-range_in w r (r + rel),
      );
      counted = λ rel v h. omega (arith, get_elem?-replicate w 0 rel h);
      indexed = omega (arith, length-replicate w 0);
    }
