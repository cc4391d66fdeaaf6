-- ===== src/Stream/Instances.antt =====
-- `impl Stream for AcceptStream` and `for ReadStream` of src/calls.
use onlyio.Base.{
  ℕ, ◌≡◌, refl, Bool, Bool-cases, inl, inr, Option, none, Outcome, ok, panics, undefined, ◌>>=◌,
  arith,
}
use onlyio.Base.Int.{is_negative}
use onlyio.BufPool.{RwBuffer, checkout_read}
use onlyio.Runtime.{Runtime, send_accept_multishot, send_recv_multishot}
use onlyio.Calls.{Poll}
use onlyio.Calls.Accept.{AcceptStream, AcceptStreamState, poll_next_accept}
use onlyio.Calls.Read.{ReadStream, ReadStreamState, poll_next_read}
use onlyio.Stream.{Stream}
use onlyio.Stream.Fused.{Fused}

-- A poll that queues a call does not answer `Ready`.
queued_pends :
    {F S A : Type 0} (m : Outcome (Runtime F)) (s s' : S) (rt' : Runtime F) {a : A} {P : Type 0}
    → ◌>>=◌ {B = Poll A × S × Runtime F} m (λ v. ok (Poll.pending, s, v))
      ≡ ok (Poll.ready a, s', rt')
    → P
queued_pends (ok v) s s' rt' e = absurd (cc)
queued_pends (panics q) s s' rt' e = absurd (cc)
queued_pends undefined s s' rt' e = absurd (cc)

module _ {F : Type 0} (more : ℕ → Bool) where
  abbrev pub accept_stream : Stream F AcceptStream
  accept_stream = record { Item = ℕ; poll_next = poll_next_accept more }

  accept_ends :
      (fd : ℕ) (state : AcceptStreamState) (s' : AcceptStream) (rt rt' : Runtime F)
      → poll_next_accept more (record { listen_fd = fd; state = state }) rt
        ≡ ok (Poll.ready none, s', rt')
      → s'.state ≡ AcceptStreamState.done
  unfolding poll_next_accept
  accept_ends fd AcceptStreamState.init s' rt rt' e =
      queued_pends (send_accept_multishot fd rt)
        (record { listen_fd = fd; state = AcceptStreamState.running }) s' rt' e
  accept_ends fd AcceptStreamState.running s' rt rt' e =
      elim (Bool-cases (is_negative rt.current.result)) [
        | inl n ↦ ground (arith, n, e)
        | inr n ↦ absurd (ground (arith, n, e))
      ]
  accept_ends fd AcceptStreamState.done s' rt rt' e = ground (arith, e)

  pub accept_stream-Fused : Fused accept_stream
  unfolding poll_next_accept
  accept_stream-Fused = record {
    IsOver = λ s. s.state ≡ AcceptStreamState.done;
    ends = λ s s' rt rt' e. accept_ends s.listen_fd s.state s' rt rt' e;
    stays = λ s rt o. rw o refl;
  }

  module _ (buffer_select : ℕ → Option ℕ) where
    abbrev pub read_stream : Stream F ReadStream
    read_stream = record { Item = RwBuffer; poll_next = poll_next_read buffer_select more }

    read_ends :
        (fd : ℕ) (state : ReadStreamState) (s' : ReadStream) (rt rt' : Runtime F)
        → poll_next_read buffer_select more (record { fd = fd; state = state }) rt
          ≡ ok (Poll.ready none, s', rt')
        → s'.state ≡ ReadStreamState.done
    unfolding poll_next_read checkout_read
    read_ends fd ReadStreamState.init s' rt rt' e =
        queued_pends (send_recv_multishot fd rt)
          (record { fd = fd; state = ReadStreamState.running }) s' rt' e
    read_ends fd ReadStreamState.running s' rt rt' e =
        elim (Bool-cases (is_negative rt.current.result)) [
          | inl n ↦ ground (arith, n, e)
          | inr n ↦ absurd (ground (arith, n, e))
        ]
    read_ends fd ReadStreamState.done s' rt rt' e = ground (arith, e)

    pub read_stream-Fused : Fused read_stream
    unfolding poll_next_read
    read_stream-Fused = record {
      IsOver = λ s. s.state ≡ ReadStreamState.done;
      ends = λ s s' rt rt' e. read_ends s.fd s.state s' rt rt' e;
      stays = λ s rt o. rw o refl;
    }
