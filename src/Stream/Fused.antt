-- ===== src/Stream/Fused.antt =====
-- The contract of src/stream.rs: after `Ready(None)` a stream has ended.
use onlyio.Base.{◌≡◌, refl, List, [], ◌∷◌, none, ok, map}
use onlyio.UserData.{TaskInfo}
use onlyio.Runtime.{Runtime}
use onlyio.Runtime.Dispatch.{with_current}
use onlyio.Calls.{Poll}
use onlyio.Stream.{Stream, poll_next_future, poll_each}

-- A poll that answers `Ready(None)` leaves the stream in a state of its end, in which every poll
-- answers so again, and leaves the stream and the runtime as they are.
pub record Fused {F S : Type 0} (stream : Stream F S) : Type 1 where
  pub IsOver : S → Type 0
  pub ends :
      (s s' : S) (rt rt' : Runtime F)
      → stream.poll_next s rt ≡ ok (Poll.ready none, s', rt')
      → IsOver s'
  pub stays :
      (s : S) (rt : Runtime F) → IsOver s → stream.poll_next s rt ≡ ok (Poll.ready none, s, rt)

-- CURRENT_TASK after the completions
abbrev pub after : {F : Type 0} → List TaskInfo → Runtime F → Runtime F
after [] rt = rt
after (i ∷ is) rt = after is (with_current rt i)

module _ {F S : Type 0} (stream : Stream F S) (fused : Fused stream) where
  over-poll_each :
      (is : List TaskInfo) (s : S) (rt : Runtime F)
      → fused.IsOver s
      → poll_each stream is s rt ≡ ok (map (λ i. Poll.ready none) is, s, after is rt)
  unfolding poll_each poll_next_future
  over-poll_each [] s rt o = refl
  over-poll_each (i ∷ is) s rt o =
      rw (fused.stays s (with_current rt i) o, over-poll_each is s (with_current rt i) o)

  -- If a fused stream has answered `Ready(None)`, then `next()` answers so for every further
  -- completion, without a call of the runtime and without a change of the stream.
  pub poll_each-fused :
      (is : List TaskInfo) (s s' : S) (rt rt' : Runtime F)
      → poll_next_future stream s rt ≡ ok (Poll.ready none, s', rt')
      → poll_each stream is s' rt' ≡ ok (map (λ i. Poll.ready none) is, s', after is rt')
  unfolding poll_next_future
  poll_each-fused is s s' rt rt' e = over-poll_each is s' rt' (fused.ends s s' rt rt' e)
