-- ===== src/BufRing/Init.antt =====
-- The ring as `Runtime::new` hands it to the kernel.
use onlyio.Base.{
  ℕ, zero, suc, ◌+◌, ◌%◌, ◌≤◌, ◌<◌, ◌^◌, ◌≡◌, refl, ap, ◌∙◌, List, [], ◌∷◌, some, ok, map, arith,
  length, get_elem?,
}
use native.Mathlib.Nat.{zero-add, mod-eq_of_lt}
use onlyio.BufPool.{BufPool, range, build_iovecs}
use onlyio.BufPool.Addresses.{build_iovecs_lem, get_elem?-range, get_elem?-map}
use onlyio.BufRing.{BufRing, RingEntry, init, init_entries}
use onlyio.BufRing.Window.{Window, Holds, entry_of, ring_size}

pub length-range : (k i : ℕ) → length (range k i) ≡ k
length-range zero i = refl
length-range (suc k) i = ap suc (length-range k (i + 1))

length-map : {A B : Type 0} (f : A → B) (xs : List A) → length (map f xs) ≡ length xs
length-map f [] = refl
length-map f (x ∷ xs) = ap suc (length-map f xs)

module _ (n : ℕ) (p : BufPool) where
  init_entries_lem :
      (k i : ℕ)
      → i + k ≤ p.read_count + length p.write_rc
      → i + k ≤ 2 ^ 16
      → init_entries (build_iovecs n p) k i ≡ ok (map (entry_of n p) (range k i))
  unfolding init_entries
  init_entries_lem zero i h l = refl
  init_entries_lem (suc k) i h l = rw (
    build_iovecs_lem n p i (omega arith),
    init_entries_lem k (i + 1) (omega arith) (omega arith),
    mod-eq_of_lt {n = i} {m = 2 ^ 16} (omega arith),
  )

  Window-range :
      (es : List RingEntry) (k h : ℕ)
      → ((j : ℕ) → j < ring_size → get_elem? es j ≡ some (entry_of n p j))
      → h + k ≤ ring_size
      → Window n p es h (range k h)
  Window-range es zero h all l = tt
  Window-range es (suc k) h all l = (
    ap (get_elem? es) (mod-eq_of_lt {n = h} {m = ring_size} (omega arith)) ∙ all h (omega arith),
    Window-range es k (h + 1) all (omega arith),
  )

  abbrev all_entries : List RingEntry
  all_entries = map (entry_of n p) (range p.read_count 0)

  length-all_entries : length all_entries ≡ p.read_count
  length-all_entries =
      length-map (entry_of n p) (range p.read_count 0) ∙ length-range p.read_count 0

  pub init_lem :
      p.read_count ≤ 2 ^ 16
      → init n p ≡ ok (record { entries = all_entries; tail = p.read_count % 2 ^ 16 })
  unfolding init
  init_lem h = rw (init_entries_lem p.read_count 0 (omega arith) (omega arith))

  -- With a pool of 512 read slots the new ring holds all of them for the kernel, which starts at its
  -- first entry: each with the address and the length of the slot.
  pub init-Holds :
      p.read_count ≡ ring_size
      → (r : BufRing) × (init n p ≡ ok r) × Holds n p r 0 (range p.read_count 0)
  init-Holds c = (
    record { entries = all_entries; tail = p.read_count % 2 ^ 16 },
    init_lem (omega (arith, c)),
    record {
      sized = length-all_entries ∙ c;
      ends = omega (arith, length-range p.read_count 0);
      fits = omega (arith, c, length-range p.read_count 0);
      window = Window-range all_entries p.read_count 0 found (omega (arith, c));
    },
  )
    where
      found : (j : ℕ) → j < ring_size → get_elem? all_entries j ≡ some (entry_of n p j)
      found j h =
          get_elem?-map (entry_of n p) (range p.read_count 0) j
            (get_elem?-range p.read_count 0 j (omega (arith, c)) ∙ ap some (zero-add j))
