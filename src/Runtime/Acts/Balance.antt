-- ===== src/Runtime/Acts/Balance.antt =====
-- The claims on the tasks of a runtime: the entries that wait to be submitted, and `extra` ones, held
-- by the kernel and by handles.
use onlyio.Base.{ℕ, ◌+◌, ◌^◌, ◌<◌, ◌≡◌, ap, List, [], some, ok, arith}
use onlyio.Slab
use onlyio.Slab.{Slab}
use onlyio.Slab.Map.{lookup, index_of_lookup, lookup-lt}
use onlyio.Runtime.{Runtime}
use onlyio.Runtime.Account.{Account, Account-ext}
use onlyio.BufPool.{BufPool}
use onlyio.BufRing.{BufRing}
use onlyio.Runtime.Acts.Entries.{refs}

-- The tasks of `s` have their places in `s'` too.
abbrev pub Keeps : Slab → Slab → Type 0
Keeps s s' = (j q : ℕ) → lookup s j ≡ some q → lookup s' j ≡ some q

module _ {F : Type 0} where
  -- The counts are the claims, and no waker has been used.
  abbrev pub Balanced : (ℕ → ℕ) → Runtime F → Type 0
  Balanced extra rt =
      (fs : List ℕ) × Account rt.tasks rt.store fs (λ j. extra j + refs j rt.pending)
      × (rt.wake_list ≡ [])

  -- Another split of the same claims
  pub rebalance :
      (extra : ℕ → ℕ) (rt : Runtime F) (fs : List ℕ) (claims : ℕ → ℕ)
      → rt.wake_list ≡ []
      → Account rt.tasks rt.store fs claims
      → ((j : ℕ) → claims j ≡ extra j + refs j rt.pending)
      → Balanced extra rt
  rebalance extra rt fs claims q a e = (fs, Account-ext rt.tasks rt.store fs e a, q)

  pub Balanced-ext :
      {extra extra' : ℕ → ℕ} (rt : Runtime F)
      → ((j : ℕ) → extra j ≡ extra' j)
      → Balanced extra rt
      → Balanced extra' rt
  Balanced-ext {extra} {extra'} rt e b =
      rebalance extra' rt b.0 _ b.2 b.1 λ j. ap (λ n. n + refs j rt.pending) (e j)

  -- The task `i` of CURRENT_TASK is held, its block is at `p`, and the tasks of `s` have their places.
  pub record Polling (extra : ℕ → ℕ) (i p : ℕ) (s : Slab) (rt : Runtime F) : Type 0 where
    pub balanced : Balanced extra rt
    pub held : 0 < extra i
    pub current : rt.current.tag.task_idx ≡ i
    pub found : lookup rt.tasks i ≡ some p
    pub keeps : Keeps s rt.tasks

  pub Polling-index :
      (extra : ℕ → ℕ) (i p : ℕ) (s : Slab) (rt : Runtime F)
      → Polling extra i p s rt
      → Slab.index rt.tasks rt.current.tag.task_idx ≡ ok p
  Polling-index extra i p s rt v = rw v.current (index_of_lookup rt.tasks i v.found)

  pub Polling-lt :
      (extra : ℕ → ℕ) (i p : ℕ) (s : Slab) (rt : Runtime F) → Polling extra i p s rt → i < 2 ^ 32
  Polling-lt extra i p s rt v = omega (arith, lookup-lt rt.tasks i v.found, v.balanced.1.wf.small)

  -- Buffers are no part of the claims.
  pub rebuffer :
      {extra : ℕ → ℕ} {i p : ℕ} {s : Slab} {rt : Runtime F} (b : BufPool) (r : BufRing)
      → Polling extra i p s rt
      → Polling extra i p s (record rt { buffer = b; buf_ring = r })
  rebuffer b r v = record {
    balanced = v.balanced;
    held = v.held;
    current = v.current;
    found = v.found;
    keeps = v.keeps;
  }
