-- ===== src/Server/Runs.antt =====
-- `block_on` of the server.
use onlyio.Base.{ℕ, ◌+◌, ◌*◌, ◌<◌, ◌≡◌, Bool, true, List, [], Option, arith, Ensures}
use onlyio.Sqe.{Entry}
use onlyio.UserData.{CqeEntry}
use onlyio.Slab.{is_task}
use onlyio.Runtime.{Runtime}
use onlyio.Runtime.Loop.{block_on}
use onlyio.Runtime.Turns.{Kernel}
use onlyio.Runtime.Turns.Ends.{Ends}
use onlyio.Runtime.Setup.Ready.{Idle}
use onlyio.Runtime.Cost.Finishes.{Over, Last, block_on-finishes}
use onlyio.Calls.Accept.{AcceptFuture}
use onlyio.Server.{Server, Program, poll_program}
use onlyio.Server.Acting.{Allocator, Bounded, poll_program-Lawful}
use onlyio.Server.Costs.{program_left, poll_program-Thrifty}

module _ (buffer_select : ℕ → Option ℕ) (allocate : Runtime Program → Option ℕ)
    (memory : Allocator allocate) (bounded : Bounded allocate) (conn_size conn_align listen_fd : ℕ)
    (more : ℕ → Bool) {K : Type 0} (push_multiple : K → List Entry → Option K) (wait : K → Option K)
    (completion : K → List CqeEntry × K) (kernel : Kernel more push_multiple wait completion)
    (single : (k : K) → Last more (completion k).0) where
  -- The server of `rest + 1` connections, run by `block_on` in a block at an even address on a runtime as
  -- `Runtime::new` makes it, whose kernel has no entry yet and gives only completions without the flag
  -- that others follow, over an allocator that keeps to `Allocator`, and grants blocks only while
  -- the slab has room for its indices, as `Bounded` says, comes to an end within three turns of the loop for each
  -- connection and one more, in whatever order the kernel answers: it panics, a system call fails, or
  -- it returns with no task left and no entry waiting or in flight. But for the count that the last
  -- release of a task reads back from the block it has just freed, the run has no undefined behaviour.
  pub block_on-server :
      (turns wakes p size align rest : ℕ) (k : K) (rt : Runtime Program)
      → Idle rt
      → kernel.flight k ≡ []
      → is_task p ≡ true
      → 3 * (rest + 1) < turns
      → Ensures
          (λ t.
            Ends
              (poll_program buffer_select allocate conn_size conn_align listen_fd)
              (poll_program-Lawful buffer_select allocate memory bounded conn_size conn_align
                listen_fd)
              more
              push_multiple
              wait
              completion
              kernel
              t
            × Over t)
          (block_on
            (poll_program buffer_select allocate conn_size conn_align listen_fd)
            more
            push_multiple
            wait
            completion
            turns
            wakes
            p
            size
            align
            (Program.main (Server.accepting rest (AcceptFuture.pending listen_fd)))
            k
            rt)
  block_on-server turns wakes p size align rest k rt idle none_yet even enough =
      block_on-finishes program_left
        (poll_program buffer_select allocate conn_size conn_align listen_fd)
        (poll_program-Thrifty buffer_select allocate memory bounded conn_size conn_align listen_fd)
        more push_multiple wait completion kernel single
        (poll_program-Lawful buffer_select allocate memory bounded conn_size conn_align listen_fd)
        turns wakes p size align
        (Program.main (Server.accepting rest (AcceptFuture.pending listen_fd))) k rt idle none_yet
        even (omega arith)
