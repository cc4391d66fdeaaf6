-- ===== src/Runtime/Cost/Sums.antt =====
-- The cost of what is done in two parts
use onlyio.Base.{ℕ, ◌+◌, ◌≡◌, arith}
use onlyio.Runtime.{Runtime}
use onlyio.Runtime.Acts.{
  Acts, Acts.done, Acts.sends, Acts.sends_multishot, Acts.commits, Acts.fans_out, Acts.advances,
  Acts.goes_on, Acts.uses_buffers, Acts.spawns,
}
use onlyio.Runtime.Acts.Sequence.{Acts-Acts}
use onlyio.Runtime.Cost.{cost}

module _ {F : Type 0} (rank : F → ℕ) where
  pub cost-Acts-Acts :
      {rt u v : Runtime F} (a : Acts rt u) (b : Acts u v)
      → cost rank (Acts-Acts a b) ≡ cost rank a + cost rank b
  unfolding cost Acts-Acts
  cost-Acts-Acts a done = omega arith
  cost-Acts-Acts a (sends b op e) = omega (arith, cost-Acts-Acts a b)
  cost-Acts-Acts a (sends_multishot b op e) = omega (arith, cost-Acts-Acts a b)
  cost-Acts-Acts a (commits b ptr fd len buf_id e) = omega (arith, cost-Acts-Acts a b)
  cost-Acts-Acts a (fans_out b fds buffer len few e) = omega (arith, cost-Acts-Acts a b)
  cost-Acts-Acts a (advances b e) = cost-Acts-Acts a b
  cost-Acts-Acts a (goes_on b) = cost-Acts-Acts a b
  cost-Acts-Acts a (uses_buffers b p r) = cost-Acts-Acts a b
  cost-Acts-Acts a
        (spawns b p i size align offset future f' t t' s st fresh even room made inserted acts cell
          end) =
      omega (arith, cost-Acts-Acts a b)
