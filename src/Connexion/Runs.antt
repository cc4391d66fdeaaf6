-- ===== src/Connexion/Runs.antt =====
-- `block_on(handle_connexion(conn_fd))`, as a test of src/lib.rs may run it.
use onlyio.Base.{
  ℕ, ◌≡◌, Bool, true, List, [], Option, Outcome, ok, arith, ◌>>=◌, Ensures, Ensures-bind,
  Ensures.returns, Yields.gives, Yields-bind,
}
use onlyio.Sqe.{Entry}
use onlyio.UserData.{CqeEntry}
use onlyio.Slab.{is_task}
use onlyio.Runtime.{Runtime}
use onlyio.Runtime.Acts.Balance.{Polling-index}
use onlyio.Runtime.Loop.{block_on}
use onlyio.Runtime.Polls.{Lawful}
use onlyio.Runtime.Turns.{Kernel}
use onlyio.Runtime.Turns.Ends.{Ends}
use onlyio.Runtime.Setup.Ready.{Idle}
use onlyio.Runtime.Cost.{Thrifty}
use onlyio.Runtime.Cost.Finishes.{Over, Last, block_on-finishes}
use onlyio.Connexion.{Connexion, poll_connexion}
use onlyio.Connexion.Answers.{poll_connexion-Acts}
use onlyio.Connexion.Costs.{connexion_left, poll_connexion-Spares}

module _ (buffer_select : ℕ → Option ℕ) where
  -- The poll of the erased future
  abbrev pub serve : Connexion → Runtime Connexion → Outcome (Connexion × Runtime Connexion)
  serve c rt = do polled ← poll_connexion buffer_select c rt; ok (polled.1, polled.2)

  pub serve-Lawful : Lawful serve
  serve-Lawful c rt extra i p s t v cell =
      Ensures-bind
        (poll_connexion-Acts rt p t (Polling-index extra i p s rt v) cell buffer_select c)
        λ polled a. returns a

  pub serve-Thrifty : Thrifty connexion_left serve
  serve-Thrifty c rt =
      Yields-bind (poll_connexion-Spares connexion_left buffer_select c rt) λ polled a. gives a

  module _ (more : ℕ → Bool) {K : Type 0} (push_multiple : K → List Entry → Option K)
      (wait : K → Option K) (completion : K → List CqeEntry × K)
      (kernel : Kernel more push_multiple wait completion)
      (single : (k : K) → Last more (completion k).0) where
    -- A connection run by `block_on` on a runtime as `Runtime::new` makes it, whose kernel has no entry
    -- yet and gives only completions without the flag that others follow, comes to an end within three
    -- turns of the loop: it panics, a system call fails, or it returns with no task left and no entry
    -- waiting or in flight. But for the count that the last release of a task reads back from the
    -- block it has just freed, the run has no undefined behaviour.
    pub block_on-connexion :
        (wakes p size align conn_fd : ℕ) (k : K) (rt : Runtime Connexion)
        → Idle rt
        → kernel.flight k ≡ []
        → is_task p ≡ true
        → Ensures
            (λ t. Ends serve serve-Lawful more push_multiple wait completion kernel t × Over t)
            (block_on serve more push_multiple wait completion 3 wakes p size align
              (Connexion.start conn_fd)
              k
              rt)
    block_on-connexion wakes p size align conn_fd k rt idle none_yet even =
        block_on-finishes connexion_left serve serve-Thrifty more push_multiple wait completion
          kernel single serve-Lawful 3 wakes p size align (Connexion.start conn_fd) k rt idle
          none_yet even (omega arith)
