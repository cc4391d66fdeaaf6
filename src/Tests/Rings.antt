-- ===== src/Tests/Rings.antt =====
-- The ring of `Runtime::new`, one slot of which the kernel has taken.
use onlyio.Base.{
  ℕ, ◌+◌, ◌*◌, ◌<◌, ◌≡◌, refl, List, [], ◌∷◌, ◌++◌, ok, arith, if◌then◌else◌, ltb, count, map,
}
use onlyio.BufPool.{BufPool, range, replicate, buf_size}
use onlyio.BufRing.{BufRing, init, release_buf_to_ring}
use onlyio.BufRing.Window.{Holds, entry_of}
use onlyio.BufRing.Init.{init_lem}
use onlyio.BufRing.Shares.{World, Reach, take, here, next}
use onlyio.BufRing.Steps.{Reach-once, Reach-release, Reach-take}

abbrev pub pool : BufPool
pool = record {
  base = 0x10000;
  read_count = 512;
  write_free = range 512 512;
  write_rc = replicate 512 0;
}

abbrev pub ring : BufRing
ring = record { entries = map (entry_of 1 pool) (range 512 0); tail = 512 }

pub init_ring : init 1 pool ≡ ok ring
init_ring = init_lem 1 pool (omega arith)

-- The kernel has taken slot 0.
abbrev taken : World
taken = record { ring = ring; head = 1; out = 0 ∷ [] }

path : Reach 1 pool (record { ring = ring; head = 0; out = [] }) taken
path = next here (take (entry_of 1 pool 0) (λ e. omega arith) refl)

Reach-once_example :
    (avail : List ℕ) × Holds 1 pool ring 1 avail
    × ((a : ℕ) → count a avail + count a (0 ∷ []) ≡ (if ltb a 512 then 1 else 0))
Reach-once_example = Reach-once 1 pool refl init_ring path

Reach-release_example :
    (avail : List ℕ) × (r' : BufRing) × Holds 1 pool ring 1 avail
    × (release_buf_to_ring 1 pool ring 0 ≡ ok r')
    × Holds 1 pool r' 1 (avail ++ 0 ∷ [])
Reach-release_example = Reach-release 1 pool [] 0 [] refl init_ring path refl

Reach-take_example :
    (count 1 (0 ∷ []) ≡ 0) × (1 < 512) × (0x10000 + 1 * 4096 ≡ 0x10000 + 1 * buf_size 1)
Reach-take_example =
    Reach-take 1 pool (entry_of 1 pool 1) refl init_ring path (λ e. omega arith) refl
