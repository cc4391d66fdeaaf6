-- ===== src/Connexion/Answers.antt =====
-- What a connection's task does to the runtime, and how the completion of its commit is answered.
use onlyio.Base.{
  ℕ, ◌%◌, ◌^◌, ◌<◌, ◌≡◌, refl, sym, subst, ◌∙◌, true, false, not, ◌⊎◌, inl, inr, Option, some, ok,
  ◌>>◌, assert, panics, assert_failed, expect_none, ◌>>=◌, lt→ltb, Ensures, Ensures.returns,
  Ensures.stops, Ensures-bind, Ensures-assert, Ensures-if, Defined-expect,
}
use onlyio.Base.Int.{ℤ, is_not_positive, as_u32}
use onlyio.Sqe.{read, write_fixed}
use onlyio.UserData.{set_current_task_multiple}
use onlyio.Task.{RawTask, error, evaluate_syscall_nb}
use onlyio.Slab
use onlyio.BufPool.{RwBuffer, checkout_read, buf_size}
use onlyio.Runtime.{Runtime, pages, send_read}
use onlyio.Runtime.Acts.{Acts, Acts.done}
use onlyio.Runtime.Acts.Sequence.{Acts-Acts}
use onlyio.Runtime.Send.{InSync, counted, queued, completed, send_commit_write-Answers}
use onlyio.Calls.Slots.{handle}
use onlyio.Calls.{Poll}
use onlyio.Calls.Read.{ReadFuture, poll_read, drop_rw_buffer}
use onlyio.Calls.Commit.{CommitFuture, commit, poll_commit}
use onlyio.Calls.Acting.{release_read_buf-Acts, send-Acts}
use onlyio.Calls.Acting.Futures.{Does, poll_commit-Acts, checkout_read-Defined, given_back}
use onlyio.Connexion.{Connexion, await_read, await_commit, poll_connexion}

module _ {F : Type 0} where
  drop_rw_buffer-Acts : (b : RwBuffer) (rt : Runtime F) → Ensures (Acts rt) (drop_rw_buffer b rt)
  unfolding drop_rw_buffer
  drop_rw_buffer-Acts b rt =
      Ensures-if b.committed (returns done) (release_read_buf-Acts b.buf_idx rt)

  module _ (rt : Runtime F) (p : ℕ) (t : RawTask F)
      (indexed : Slab.index rt.tasks rt.current.tag.task_idx ≡ ok p)
      (cell : rt.store.cells p ≡ some t) where
    await_commit-Acts : (b : RwBuffer) (f : CommitFuture) → Does rt (await_commit b f rt)
    unfolding await_commit
    await_commit-Acts b f = Ensures-bind (poll_commit-Acts rt p t indexed cell f) λ r a. ended r a
      where
        ended :
            (r : Poll ℤ × CommitFuture × Runtime F)
            → Acts rt r.2
            → Does rt (elim (r.0) [
              | Poll.pending ↦ ok (Poll.pending, Connexion.committing b r.1, r.2)
              | Poll.ready n ↦ drop_rw_buffer b r.2 >>= λ rt'.
                  assert (not (is_not_positive n)) assert_failed
                  >> ok (Poll.ready tt, Connexion.done, rt')
            ])
        ended (Poll.pending, f', v) a = returns a
        ended (Poll.ready n, f', v) a =
            Ensures-bind (drop_rw_buffer-Acts b v) λ u c.
              Ensures-assert (not (is_not_positive n)) assert_failed (returns (Acts-Acts a c))

    -- What a read leaves: a handle comes with the runtime as it was.
    abbrev AfterRead : Poll (RwBuffer ⊎ ℤ) → Runtime F → Type 0
    AfterRead Poll.pending v = Acts rt v
    AfterRead (Poll.ready (inl b)) v = v ≡ rt
    AfterRead (Poll.ready (inr e)) v = Unit {0}

    poll_read-AfterRead :
        (buffer_select : ℕ → Option ℕ) (f : ReadFuture)
        → Ensures
            (λ (r : Poll (RwBuffer ⊎ ℤ) × ReadFuture × Runtime F). AfterRead r.0 r.2)
            (poll_read buffer_select f rt)
    unfolding poll_read send_read
    poll_read-AfterRead buffer_select (ReadFuture.init fd) =
        Ensures-bind (send-Acts rt p t indexed cell (read fd (buf_size pages % 2 ^ 32) 0))
          λ v a. returns a
    poll_read-AfterRead buffer_select (ReadFuture.pending fd) =
        Ensures-if (is_not_positive rt.current.result)
          (Ensures-bind {P = Acts rt} (given_back rt (buffer_select rt.current.flags))
            λ v a. returns tt)
          (Ensures-bind (Defined-expect (buffer_select rt.current.flags) expect_none) λ buf_id d.
            Ensures-bind (checkout_read-Defined rt.buffer buf_id fd (as_u32 rt.current.result))
              λ b d'. returns refl)

    await_read-Acts :
        (buffer_select : ℕ → Option ℕ) (f : ReadFuture) → Does rt (await_read buffer_select f rt)
    unfolding await_read
    await_read-Acts buffer_select f =
        Ensures-bind (poll_read-AfterRead buffer_select f) λ r a. next r a
      where
        next :
            (r : Poll (RwBuffer ⊎ ℤ) × ReadFuture × Runtime F)
            → AfterRead r.0 r.2
            → Does rt (elim (r.0) [
              | Poll.pending ↦ ok (Poll.pending, Connexion.reading r.1, r.2)
              | Poll.ready answer ↦ elim answer [
                | inl buffer ↦
                    await_commit (commit buffer buffer.bytes).0 (commit buffer buffer.bytes).1 r.2
                | inr e ↦ panics expect_none
              ]
            ])
        next (Poll.pending, f', v) a = returns a
        next (Poll.ready (inl b), f', v) a =
            subst (λ u. Does rt (await_commit (commit b b.bytes).0 (commit b b.bytes).1 u)) (sym a)
              (await_commit-Acts (commit b b.bytes).0 (commit b b.bytes).1)
        next (Poll.ready (inr e), f', v) a = stops

    -- When the task of CURRENT_TASK is live, a poll of `handle_connexion` is not undefined, in any state,
    -- and what it does to the runtime is a sequence of the runtime's calls that `Acts` has.
    pub poll_connexion-Acts :
        (buffer_select : ℕ → Option ℕ) (c : Connexion) → Does rt (poll_connexion buffer_select c rt)
    unfolding poll_connexion
    poll_connexion-Acts buffer_select (Connexion.start conn_fd) =
        await_read-Acts buffer_select (ReadFuture.init conn_fd)
    poll_connexion-Acts buffer_select (Connexion.reading f) = await_read-Acts buffer_select f
    poll_connexion-Acts buffer_select (Connexion.committing b f) = await_commit-Acts b f
    poll_connexion-Acts buffer_select Connexion.done = stops

  -- A task that runs `handle_connexion` after a single-shot read, in step with CURRENT_TASK: when the
  -- completion has a positive result and names a read slot, the poll queues the write of the same
  -- bytes from that slot and waits. Whatever the kernel answers, the completion of that write is
  -- answered `Error`, on which `handle_cqe_entry` panics.
  pub poll_connexion-error :
      (rt : Runtime F) (p : ℕ) (t : RawTask F) (buffer_select : ℕ → Option ℕ) (conn_fd b : ℕ)
      (result : ℤ) (flags : ℕ)
      → InSync rt p t
      → t.syscall_nb < 0x8000
      → is_not_positive rt.current.result ≡ false
      → buffer_select rt.current.flags ≡ some b
      → b < rt.buffer.read_count
      → (u : ℕ) × (poll_connexion buffer_select (Connexion.reading (ReadFuture.pending conn_fd)) rt
          ≡ ok (
            Poll.pending,
            Connexion.committing
                (record (handle rt b conn_fd) { committed = true })
                (CommitFuture.pending b),
            queued
                (record rt { current = set_current_task_multiple true rt.current })
                p
                (counted t)
                (write_fixed conn_fd
                  (handle rt b conn_fd).ptr
                  (as_u32 rt.current.result)
                  (b % 2 ^ 16))
                u,
          ))
        × (evaluate_syscall_nb (counted t) (completed u result flags).tag.syscall_nb ≡ error)
  unfolding poll_connexion await_read await_commit poll_read checkout_read commit poll_commit
  poll_connexion-error rt p t buffer_select conn_fd b result flags v single some_data named l =
      let (u, sent, answer) =
        send_commit_write-Answers (handle rt b conn_fd).ptr conn_fd (as_u32 rt.current.result)
          (b % 2 ^ 16) rt p t result flags v in
      (
        u,
        rw (some_data, named, lt→ltb b rt.buffer.read_count l, sent),
        answer ∙ rw (lt→ltb t.syscall_nb 0x8000 single),
      )
