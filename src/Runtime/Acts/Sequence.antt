-- ===== src/Runtime/Acts/Sequence.antt =====
-- What is done in two parts.
use onlyio.Runtime.{Runtime}
use onlyio.Runtime.Acts.{
  Acts, Acts.done, Acts.sends, Acts.sends_multishot, Acts.commits, Acts.fans_out, Acts.advances,
  Acts.goes_on, Acts.uses_buffers, Acts.spawns,
}

module _ {F : Type 0} where
  unfoldable pub Acts-Acts : {rt u v : Runtime F} → Acts rt u → Acts u v → Acts rt v
  Acts-Acts a done = a
  Acts-Acts a (sends b op e) = sends (Acts-Acts a b) op e
  Acts-Acts a (sends_multishot b op e) = sends_multishot (Acts-Acts a b) op e
  Acts-Acts a (commits b ptr fd len buf_id e) = commits (Acts-Acts a b) ptr fd len buf_id e
  Acts-Acts a (fans_out b fds buffer len few e) = fans_out (Acts-Acts a b) fds buffer len few e
  Acts-Acts a (advances b e) = advances (Acts-Acts a b) e
  Acts-Acts a (goes_on b) = goes_on (Acts-Acts a b)
  Acts-Acts a (uses_buffers b p r) = uses_buffers (Acts-Acts a b) p r
  Acts-Acts a
        (spawns b p i size align offset future f' t t' s st fresh even room made inserted acts cell
          end) =
      spawns (Acts-Acts a b) p i size align offset future f' t t' s st fresh even room made inserted
        acts cell end
