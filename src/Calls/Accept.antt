-- ===== src/Calls/Accept.antt =====
-- src/calls/accept.rs. A listening descriptor is a number.
use onlyio.Base.{ℕ, Bool, ◌⊎◌, inl, inr, Option, none, some, ok, ◌>>=◌, if◌then◌else◌}
use onlyio.Base.Int.{ℤ, is_negative, as_u32}
use onlyio.Runtime.{Runtime}
use onlyio.Runtime.Submit.{submit_accept, submit_accept_multishot}
use onlyio.Calls.{Poll, Polled}

pub data AcceptFuture : Type 0 where
  pending : (fd : ℕ) → AcceptFuture
  submited : AcceptFuture

pub data AcceptStreamState : Type 0 where
  init running done : AcceptStreamState

pub record AcceptStream : Type 0 where
  pub listen_fd : ℕ
  pub state : AcceptStreamState

module _ {F : Type 0} where
  -- `Ok` is `inl`.
  unfoldable pub poll_accept : AcceptFuture → Runtime F → Polled F AcceptFuture (ℕ ⊎ ℤ)
  poll_accept (AcceptFuture.pending fd) rt = do
    rt' ← submit_accept fd rt
    ok (Poll.pending, AcceptFuture.submited, rt')
  poll_accept AcceptFuture.submited rt =
      if is_negative rt.current.result
      then ok (Poll.ready (inr rt.current.result), AcceptFuture.submited, rt)
      else ok (Poll.ready (inl (as_u32 rt.current.result)), AcceptFuture.submited, rt)

  unfoldable pub poll_next_accept :
      (ℕ → Bool) → AcceptStream → Runtime F → Polled F AcceptStream (Option ℕ)
  poll_next_accept more s rt = elim s.state [
    | init ↦ (do
      rt' ← submit_accept_multishot s.listen_fd rt
      ok (Poll.pending, record s { state = AcceptStreamState.running }, rt'))
    | running ↦
        if is_negative rt.current.result
        then ok (Poll.ready none, record s { state = AcceptStreamState.done }, rt)
        else ok (
          Poll.ready (some (as_u32 rt.current.result)),
          if more rt.current.flags then s else record s { state = AcceptStreamState.done },
          rt,
        )
    | done ↦ ok (Poll.ready none, s, rt)
  ]
