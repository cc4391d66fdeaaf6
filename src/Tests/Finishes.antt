-- ===== src/Tests/Finishes.antt =====
-- A connection over a kernel that answers every entry that it holds, once.
use onlyio.Base.{
  ℕ, refl, Bool, true, false, List, [], ◌∷◌, none, map, Outcome, ok, panics, undefined, ◌==◌, ◌>>=◌,
  ◌≡◌,
}
use onlyio.Sqe.{Entry}
use onlyio.UserData.{
  from_entry, from_user_data, current_udata, info_payload, into_user_data, initial_poll,
}
use onlyio.Task
use onlyio.Task.{evaluate_syscall_nb, augmente_syscall_nb}
use onlyio.Task.Store
use onlyio.Task.Store.{release}
use onlyio.Slab
use onlyio.Runtime.Dispatch.{
  handle_cqe_entry, dispatch, free_unsed_slab_slot, remove_all, spawn, poll, release_handle,
}
use onlyio.Runtime.{Runtime, send, send_accept}
use onlyio.Runtime.Loop.{
  Turn, block_on, loop, turn, check_free, collect, handle_all, drain, submit_and_wait,
}
use onlyio.Runtime.Turns.Ends.{Ends}
use onlyio.Runtime.Setup.Ready.{new-Idle}
use onlyio.Runtime.Cost.Finishes.{Last}
use onlyio.Calls.Accept.{AcceptFuture, AcceptStream, poll_accept, poll_next_accept}
use onlyio.Calls.Read.{ReadFuture, ReadStream, poll_read, poll_next_read}
use onlyio.Calls.Commit.{CommitFuture, poll_commit}
use onlyio.Calls.Write.{WriteFuture, WriteMultipleFuture, poll_write, poll_write_multiple}
use onlyio.Calls.Acting.Futures.{Fits}
use onlyio.Calls.Acting.Costs.{
  Pays, accept_left, read_left, commit_left, write_left, accept_stream_left, read_stream_left,
  write_multiple_left, futures-Pays,
}
use onlyio.Connexion.{Connexion}
use onlyio.Tests.Runs.{rt, more}
use onlyio.Tests.Accounts.{answer, accepts, waits, completes}
use onlyio.Tests.Setups.{granted, granted-Granted, buffer_select}

-- The kernel of `completes` gives one completion for each entry.
pub all-Last : (k : List Entry) → Last more (map answer k)
all-Last [] = tt
all-Last (e ∷ es) = (refl, all-Last es)

abbrev server : Runtime Connexion
server = (new-Idle granted granted-Granted).0

-- Nothing is spawned.
abbrev unranked : ℕ → ℕ
unranked f = 0

futures-Pays_example :
    ((f : AcceptFuture) → Pays unranked rt accept_left f (poll_accept f rt))
    × ((f : ReadFuture) → Pays unranked rt read_left f (poll_read buffer_select f rt))
    × ((f : CommitFuture) → Pays unranked rt commit_left f (poll_commit f rt))
    × ((f : WriteFuture) → Pays unranked rt write_left f (poll_write f rt))
    × ((s : AcceptStream)
        → Pays unranked rt
            (λ (x : AcceptStream). accept_stream_left x.state)
            s
            (poll_next_accept more s rt))
    × ((s : ReadStream)
        → Pays unranked rt
            (λ (x : ReadStream). read_stream_left x.state)
            s
            (poll_next_read buffer_select more s rt))
    × ((f : WriteMultipleFuture)
        → Fits f
        → Pays unranked rt write_multiple_left f (poll_write_multiple f rt))
futures-Pays_example = futures-Pays unranked rt buffer_select more

-- A task that accepts one connection
abbrev accept_poll :
    AcceptFuture → Runtime AcceptFuture → Outcome (AcceptFuture × Runtime AcceptFuture)
accept_poll f r = do polled ← poll_accept f r; ok (polled.1, polled.2)

abbrev vacant : Runtime AcceptFuture
vacant = record {
  tasks = record { slots = 3 ∷ 5 ∷ []; head = 0; len = 2; task_count = 0 };
  store = record { cells = λ q. none; free_list = []; dropped = []; stale_reads = [] };
  buffer = rt.buffer;
  buf_ring = rt.buf_ring;
  pending = [];
  current = rt.current;
  wake_list = [];
}

abbrev has_finished : Outcome (Turn (List Entry) (Runtime AcceptFuture)) → Bool
has_finished (ok (Turn.finished k r)) = r.tasks.task_count == 0
has_finished (ok (Turn.again k r)) = false
has_finished (ok (Turn.io_error k r)) = false
has_finished (ok (Turn.out_of_fuel k r)) = false
has_finished (panics q) = false
has_finished undefined = false

accept_finishes :
    has_finished (
      block_on accept_poll more accepts waits completes 2 0 4096 8 8
        (AcceptFuture.pending 3)
        []
        vacant)
    ≡ true
unfolding block_on loop turn check_free collect handle_all drain submit_and_wait handle_cqe_entry
    dispatch evaluate_syscall_nb augmente_syscall_nb free_unsed_slab_slot remove_all from_entry
    from_user_data current_udata info_payload into_user_data poll_accept send_accept send spawn
    Task.new Task.Store.clone Task.inc_rc Task.set_task_idx Slab.insert Slab.remove_dropped_task
    Slab.task_at Slab.is_free Slab.is_task Slab.next_free Slab.free_slot Slab.index initial_poll
    poll release_handle release
accept_finishes = refl
