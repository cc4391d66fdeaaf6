-- ===== src/Stream/Again.antt =====
-- Streams that are awaited again within one poll, as by a loop whose body does not wait.
use onlyio.Base.{
  ℕ, zero, suc, ◌<◌, ◌≡◌, refl, true, false, Bool, List, [], ◌∷◌, Option, some, Outcome, ok, ◌>>=◌,
  lt→ltb,
}
use onlyio.Base.Int.{is_negative, as_u32}
use onlyio.BufPool.{checkout_read}
use onlyio.Runtime.{Runtime}
use onlyio.Calls.{Poll}
use onlyio.Calls.Accept.{AcceptStreamState, poll_next_accept}
use onlyio.Calls.Read.{ReadStreamState, poll_next_read}
use onlyio.Calls.Slots.{handle}
use onlyio.Stream.{Stream, poll_next_future}
use onlyio.Stream.Instances.{accept_stream, read_stream}

module _ {F S : Type 0} (stream : Stream F S) where
  -- `next()` is awaited up to `n` times in one poll, as long as an item is there.
  pub items_of : ℕ → S → Runtime F → Outcome (List (Poll (Option stream.Item)) × S × Runtime F)
  items_of zero s rt = ok ([], s, rt)
  items_of (suc n) s rt = do
    r ← poll_next_future stream s rt
    rest ← items_of n r.1 r.2
    ok (r.0 ∷ rest.0, rest.1, rest.2)

  pub copies : ℕ → Poll (Option stream.Item) → List (Poll (Option stream.Item))
  copies zero x = []
  copies (suc n) x = x ∷ copies n x

  -- A stream that answers and stays as it is answers the same for ever.
  stuck :
      (s : S) (rt : Runtime F) (x : Poll (Option stream.Item))
      → poll_next_future stream s rt ≡ ok (x, s, rt)
      → (n : ℕ) → items_of n s rt ≡ ok (copies n x, s, rt)
  unfolding items_of copies
  stuck s rt x e zero = refl
  stuck s rt x e (suc n) = rw (e, stuck s rt x e n) refl

module _ {F : Type 0} (buffer_select : ℕ → Option ℕ) (more : ℕ → Bool) where
  -- A task that has been woken by a completion with the flag `more`, of no error, and awaits `next()`
  -- on its accept or read stream any number of times in that poll, gets an item each time, all of them
  -- the same: the descriptor of the one connection, or a handle of the one read slot that the
  -- completion names. Neither stream nor runtime change.
  pub items_of-copies :
      (n listen_fd fd b : ℕ) (rt : Runtime F)
      → is_negative rt.current.result ≡ false
      → more rt.current.flags ≡ true
      → buffer_select rt.current.flags ≡ some b
      → b < rt.buffer.read_count
      → (items_of
            (accept_stream more)
            n
            (record { listen_fd = listen_fd; state = AcceptStreamState.running })
            rt
          ≡ ok (
            copies (accept_stream {F = F} more) n (Poll.ready (some (as_u32 rt.current.result))),
            record { listen_fd = listen_fd; state = AcceptStreamState.running },
            rt,
          ))
        × (items_of
              (read_stream more buffer_select)
              n
              (record { fd = fd; state = ReadStreamState.running })
              rt
            ≡ ok (
              copies
                  (read_stream {F = F} more buffer_select)
                  n
                  (Poll.ready (some (handle rt b fd))),
              record { fd = fd; state = ReadStreamState.running },
              rt,
            ))
  unfolding poll_next_future poll_next_accept poll_next_read checkout_read
  items_of-copies n listen_fd fd b rt fine on named l = (
    stuck (accept_stream more) (record { listen_fd = listen_fd; state = AcceptStreamState.running })
        rt (Poll.ready (some (as_u32 rt.current.result))) (rw (fine, on) refl) n,
    stuck (read_stream more buffer_select) (record { fd = fd; state = ReadStreamState.running }) rt
        (Poll.ready (some (handle rt b fd)))
        (rw (fine, named, lt→ltb b rt.buffer.read_count l, on) refl) n,
  )
