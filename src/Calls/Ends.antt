-- ===== src/Calls/Ends.antt =====
-- Accept streams over lists of completions, and the polls of a connect.
use onlyio.Base.{
  ℕ, ◌≡◌, refl, inl, inr, Bool, true, false, List, [], ◌∷◌, Option, none, some, Outcome, ok, ◌>>=◌,
  if◌then◌else◌, Bool-cases, ◌==◌,
}
use onlyio.Base.Int.{is_negative, as_u32}
use onlyio.Sqe.{connect}
use onlyio.UserData.{TaskInfo, current_udata}
use onlyio.Task.{RawTask}
use onlyio.Runtime.{Runtime, send_connect}
use onlyio.Runtime.Send.{InSync, counted, queued, send_lem}
use onlyio.Runtime.Dispatch.{with_current}
use onlyio.Calls.{Poll}
use onlyio.Calls.Accept.{AcceptStream, AcceptStreamState, poll_next_accept}
use onlyio.Calls.Socket.{SocketFuture, poll_socket}

module _ (more : ℕ → Bool) where
  -- What the completions mean: a descriptor for each, up to the first error or through the first
  -- without `more`; from then on the end.
  abbrev pub answers : Bool → List TaskInfo → List (Poll (Option ℕ))
  answers alive [] = []
  answers alive (i ∷ is) =
      if alive
      then (if is_negative i.result
          then Poll.ready none ∷ answers false is
          else Poll.ready (some (as_u32 i.result)) ∷ answers (more i.flags) is)
      else Poll.ready none ∷ answers false is

abbrev state : Bool → AcceptStreamState
state b = if b then AcceptStreamState.running else AcceptStreamState.done

module _ {F : Type 0} (more : ℕ → Bool) where
  -- A stream polled at each of the completions
  unfoldable pub poll_each :
      List TaskInfo → AcceptStream → Runtime F → Outcome (List (Poll (Option ℕ)) × Runtime F)
  poll_each [] s rt = ok ([], rt)
  poll_each (i ∷ is) s rt = do
    r ← poll_next_accept more s (with_current rt i)
    rest ← poll_each is r.1 r.2
    ok (r.0 ∷ rest.0, rest.1)

  -- CURRENT_TASK after the completions
  abbrev pub after : List TaskInfo → Runtime F → Runtime F
  after [] rt = rt
  after (i ∷ is) rt = after is (with_current rt i)

  each_lem :
      (is : List TaskInfo) (listen_fd : ℕ) (alive : Bool) (rt : Runtime F)
      → poll_each is (record { listen_fd = listen_fd; state = state alive }) rt
        ≡ ok (answers more alive is, after is rt)
  unfolding poll_each poll_next_accept
  each_lem [] fd alive rt = refl
  each_lem (i ∷ is) fd false rt = rw (each_lem is fd false (with_current rt i))
  each_lem (i ∷ is) fd true rt = elim (Bool-cases (is_negative i.result)) [
    | inl n ↦ rw (n, each_lem is fd false (with_current rt i))
    | inr n ↦ elim (Bool-cases (more i.flags)) [
      | inl m ↦ rw (n, m, each_lem is fd true (with_current rt i))
      | inr m ↦ rw (n, m, each_lem is fd false (with_current rt i))
    ]
  ]

  -- An accept stream that runs, polled at any list of completions: it yields a descriptor for each of
  -- them up to the first error, where it ends, or through the first one without `more`, after which
  -- it ends; ended, it answers every further poll with the end. It submits nothing.
  pub poll_each-running :
      (is : List TaskInfo) (listen_fd : ℕ) (rt : Runtime F)
      → poll_each is (record { listen_fd = listen_fd; state = AcceptStreamState.running }) rt
        ≡ ok (answers more true is, after is rt)
  poll_each-running is listen_fd rt = each_lem is listen_fd true rt

module _ {F : Type 0} (addrlen frame frame₂ addr : ℕ) where
  -- For tasks in step with CURRENT_TASK: the first completion of a connect future, that of the socket,
  -- queues the connect for the slot in its result. The address in the entry is `frame`, that of the
  -- copy in the frame of this poll, which is gone when the entry is submitted. The second ends the
  -- future with that slot, whatever the result of the connect, if the slot is not 0. For slot 0,
  -- it queues the connect again, with an address in the frame of the second poll, and the future is
  -- as after the first one, with the new result for the slot.
  pub poll_socket-slot :
      (rt rt₂ : Runtime F) (p p₂ : ℕ) (t t₂ : RawTask F)
      → InSync rt p t
      → InSync rt₂ p₂ t₂
      → (u : ℕ) × (u₂ : ℕ) × (poll_socket addrlen frame (SocketFuture.connecting 0 addr) rt
          ≡ ok (
            Poll.pending,
            SocketFuture.connecting (as_u32 rt.current.result) addr,
            queued rt p (counted t) (connect (as_u32 rt.current.result) frame addrlen) u,
          ))
        × (poll_socket addrlen frame₂ (SocketFuture.connecting (as_u32 rt.current.result) addr) rt₂
            ≡ (if as_u32 rt.current.result == 0
                then ok (
                  Poll.pending,
                  SocketFuture.connecting (as_u32 rt₂.current.result) addr,
                  queued rt₂ p₂
                      (counted t₂)
                      (connect (as_u32 rt₂.current.result) frame₂ addrlen)
                      u₂,
                )
                else ok (Poll.ready (as_u32 rt.current.result), SocketFuture.pending, rt₂)))
  unfolding poll_socket send_connect
  poll_socket-slot rt rt₂ p p₂ t t₂ v v₂ = (
    current_udata rt.current,
    current_udata rt₂.current,
    rw (send_lem (connect (as_u32 rt.current.result) frame addrlen) rt p t v.indexed v.live v.room),
    elim (Bool-cases (as_u32 rt.current.result == 0)) [
      | inl z ↦ rw (
        z,
        send_lem (connect (as_u32 rt₂.current.result) frame₂ addrlen) rt₂ p₂ t₂ v₂.indexed v₂.live
            v₂.room,
      )
      | inr z ↦ rw z
    ],
  )
