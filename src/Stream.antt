-- ===== src/Stream.antt =====
-- src/stream.rs: the trait `Stream` and the future `Next`. A stream has its state, and a poll takes the
-- runtime, as in src/calls.
pub mod Fused
pub mod Instances
pub mod Reads
pub mod Again
use onlyio.Base.{ℕ, List, [], ◌∷◌, Option, Outcome, ok, ◌>>=◌}
use onlyio.UserData.{TaskInfo}
use onlyio.Runtime.{Runtime}
use onlyio.Runtime.Dispatch.{with_current}
use onlyio.Calls.{Poll, Polled}

-- `trait Stream`, with the associated type `Item`
pub record Stream (F S : Type 0) : Type 1 where
  pub Item : Type 0
  pub poll_next : S → Runtime F → Polled F S (Option Item)

module _ {F S : Type 0} (stream : Stream F S) where
  -- `Next` has the stream itself as its state, and `Future for Next` polls it.
  unfoldable pub poll_next_future : S → Runtime F → Polled F S (Option stream.Item)
  poll_next_future s rt = stream.poll_next s rt

  -- A task that awaits `next()` again and again, woken for each of the completions
  unfoldable pub poll_each :
      List TaskInfo → S → Runtime F → Outcome (List (Poll (Option stream.Item)) × S × Runtime F)
  unfolding poll_next_future
  poll_each [] s rt = ok ([], s, rt)
  poll_each (i ∷ is) s rt = do
    r ← poll_next_future s (with_current rt i)
    rest ← poll_each is r.1 r.2
    ok (r.0 ∷ rest.0, rest.1, rest.2)
