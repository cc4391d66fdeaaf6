-- ===== src/Tests/Accounts.antt =====
-- A task that makes a socket and connects it, over a kernel that answers every entry it holds.
use onlyio.Base.{
  ◌≤◌, if◌then◌else◌, ◌≡◌, ◌↔◌, refl, sym, ap, true, Bool, List, [], ◌∷◌, ◌++◌, none, some, Option,
  Outcome, ok, panics, undefined, ◌>>=◌, arith, map, Ensures, Ensures.returns, Ensures-bind,
  Ensures-ok,
}
use onlyio.Base.Int.{as_u32, pos}
use onlyio.Sqe.{Entry, socket}
use onlyio.UserData.{
  CqeEntry, current_udata, initial_poll, info_payload, into_user_data, from_user_data,
}
use onlyio.Task
use onlyio.Task.Store
use onlyio.Task.Store.{Store, release}
use onlyio.Slab
use onlyio.Slab.{drop_slots, Slab, free_slot, is_task}
use onlyio.Slab.Map.{lookup}
use onlyio.Slab.Invariant.{WellFormed}
use onlyio.Runtime.{Runtime, send, send_socket}
use onlyio.Runtime.Dispatch.{wake_one, spawn, poll, release_handle}
use onlyio.Runtime.Acts.Entries.{refs}
use onlyio.Runtime.Acts.Balance.{Polling, Polling-index, Balanced, rebalance}
use onlyio.Runtime.Polls.{Lawful}
use onlyio.Runtime.Polls.Drops.{held, given_up, drop_slots-Balanced}
use onlyio.Runtime.Polls.Whole.{spawn-Balanced}
use onlyio.Runtime.Polls.Wakes.{wake_one-Balanced}
use onlyio.Runtime.Turns.{
  Kernel, Answers, Answers.nothing, Answers.answers, held_by, handle_all-Balanced,
}
use onlyio.Runtime.Turns.Ends.{check_free-Balanced}
use onlyio.Runtime.Setup.Ready.{fresh-Account}
use onlyio.Runtime.Loop.{check_free, handle_all}
use onlyio.Calls.Socket.{SocketFuture, poll_socket}
use onlyio.Calls.Acting.Futures.{poll_socket-Acts}
use onlyio.Tests.Runs.{rt, at_call, more}

abbrev pub connect_poll :
    SocketFuture → Runtime SocketFuture → Outcome (SocketFuture × Runtime SocketFuture)
connect_poll f r = do polled ← poll_socket 16 0x7ff0 f r; ok (polled.1, polled.2)

pub connect_poll-Lawful : Lawful connect_poll
connect_poll-Lawful f r extra i p s t v cell =
    Ensures-bind (poll_socket-Acts r p t (Polling-index extra i p s r v) cell 16 0x7ff0 f)
      λ polled a. returns a

abbrev pub answer : Entry → CqeEntry
answer e = record { user_data = e.user_data; result = pos 3; flags = 0 }

abbrev pub accepts : List Entry → List Entry → Option (List Entry)
accepts k es = some (k ++ es)

abbrev pub waits : List Entry → Option (List Entry)
waits k = some k

abbrev pub completes : List Entry → List CqeEntry × List Entry
completes k = (map answer k, [])

pub all_answered : (k : List Entry) → Answers more k (map answer k) []
all_answered [] = nothing
all_answered (e ∷ es) = answers [] es e (answer e) refl refl (all_answered es)

abbrev pub kernel : Kernel more accepts waits completes
kernel = record {
  flight = λ k. k;
  pushes = λ k k' es e. sym (ap (λ (o : Option (List Entry)). elim o [ some l ↦ l | none ↦ [] ]) e);
  waits = λ k k' e. sym (ap (λ (o : Option (List Entry)). elim o [ some l ↦ l | none ↦ [] ]) e);
  completes = all_answered;
}

abbrev pub idle : Runtime SocketFuture
idle = record {
  tasks = record { slots = 3 ∷ 5 ∷ []; head = 0; len = 2; task_count = 0 };
  store = record { cells = λ q. none; free_list = []; dropped = []; stale_reads = [] };
  buffer = rt.buffer;
  buf_ring = rt.buf_ring;
  pending = [];
  current = at_call 3;
  wake_list = [];
}

idle-WellFormed : WellFormed idle.tasks (0 ∷ 1 ∷ [])
unfolding free_slot is_task
idle-WellFormed = record {
  sized = refl;
  small = omega arith;
  starts = refl;
  linked = (omega arith, refl, (omega arith, refl, tt));
  distinct = λ a. ground arith;
  tallied = refl;
  complete = refl;
}

pub idle-Balanced : Balanced (λ j. 0) idle
idle-Balanced = (0 ∷ 1 ∷ [], fresh-Account idle (0 ∷ 1 ∷ []) idle-WellFormed refl refl, refl)

pub even : is_task 4096 ≡ true
unfolding is_task
even = refl

spawn-Balanced_example :
    Ensures
      (λ v. Balanced (λ j. 0) v × (v.current ≡ idle.current))
      (spawn connect_poll 4096 8 8 (SocketFuture.create_socket 64) idle)
spawn-Balanced_example =
    spawn-Balanced connect_poll connect_poll-Lawful (λ j. 0) 4096 8 8
      (SocketFuture.create_socket 64) idle idle-Balanced refl even (omega arith, λ e. omega arith)

-- The runtime after the spawn: one entry waits.
abbrev pub started : Runtime SocketFuture
started = elim (spawn connect_poll 4096 8 8 (SocketFuture.create_socket 64) idle) [
  | ok v ↦ v
  | panics q ↦ idle
  | undefined ↦ idle
]

abbrev pub asked : List Entry
asked = record { op = socket; user_data = current_udata (initial_poll 0) } ∷ []

spawned : spawn connect_poll 4096 8 8 (SocketFuture.create_socket 64) idle ≡ ok started
unfolding spawn Task.new Task.Store.clone Task.inc_rc Task.set_task_idx Slab.insert Slab.is_free
    Slab.next_free Slab.is_task initial_poll poll poll_socket send_socket send Slab.index
    release_handle release
spawned = refl

started_facts :
    (started.pending ≡ asked)
    × (started.store.free_list ≡ [])
    × (lookup started.tasks 0 ≡ some 4096)
    × (started.current.tag.task_idx ≡ 0)
    × (started.store.cells 8192 ≡ none)
    × (started.tasks.len ≡ 2)
unfolding spawn Task.new Task.Store.clone Task.inc_rc Task.set_task_idx Slab.insert Slab.is_free
    Slab.next_free Slab.is_task initial_poll poll poll_socket send_socket send Slab.index
    release_handle release
started_facts = (refl, refl, refl, refl, refl, refl)

pub started_result : as_u32 started.current.result ≤ 4096
unfolding spawn Task.new Task.Store.clone Task.inc_rc Task.set_task_idx Slab.insert Slab.is_free
    Slab.next_free Slab.is_task initial_poll poll poll_socket send_socket send Slab.index
    release_handle release
started_result = omega arith

started-Balanced : Balanced (λ j. 0) started
started-Balanced =
    (Ensures-ok
      (spawn-Balanced connect_poll connect_poll-Lawful (λ j. 0) 4096 8 8
        (SocketFuture.create_socket 64) idle idle-Balanced refl even
        (omega arith, λ e. omega arith))
      spawned).0

-- The kernel has taken the entry.
abbrev pub submitted : Runtime SocketFuture
submitted = record started { pending = [] }

submitted-Balanced : Balanced (held_by asked) submitted
submitted-Balanced =
    rebalance (held_by asked) submitted started-Balanced.0 _ started-Balanced.2 started-Balanced.1
      λ j. omega (arith, ap (refs j) started_facts.0)

handle_all-Balanced_example :
    Ensures (Balanced (held_by [])) (handle_all connect_poll more (map answer asked) submitted)
handle_all-Balanced_example =
    handle_all-Balanced connect_poll connect_poll-Lawful more submitted (all_answered asked)
      submitted-Balanced

check_free-Balanced_example :
    (b : Bool) × (v : Runtime SocketFuture) × (check_free submitted ≡ ok (b, v))
    × Balanced (held_by asked) v
    × (v.pending ≡ submitted.pending)
    × ((b ≡ true) ↔ ((asked ≡ []) × (submitted.pending ≡ [])))
check_free-Balanced_example = check_free-Balanced asked submitted submitted-Balanced

drop_slots-Balanced_example :
    (st : Store SocketFuture) × (drop_slots started.tasks.slots started.store ≡ ok st)
    × (st.cells 4096 ≡ (
        if held 4096 started.tasks.slots
        then given_up (started.store.cells 4096)
        else started.store.cells 4096))
drop_slots-Balanced_example =
    drop_slots-Balanced (λ j. 0) started 4096 started-Balanced started_facts.1

asked-names : refs 0 asked ≡ 1
unfolding current_udata initial_poll info_payload into_user_data from_user_data
asked-names = refl

-- The task is polled again, and spawns.
pub submitted-Polling : Polling (held_by asked) 0 4096 submitted.tasks submitted
submitted-Polling = record {
  balanced = submitted-Balanced;
  held = omega (arith, asked-names);
  current = started_facts.3;
  found = started_facts.2;
  keeps = λ j q e. e;
}

even_too : is_task 8192 ≡ true
unfolding is_task
even_too = refl

wake_one-Balanced_example :
    Ensures (Balanced (held_by asked)) (wake_one connect_poll (at_call 3) submitted)
wake_one-Balanced_example =
    wake_one-Balanced connect_poll connect_poll-Lawful (held_by asked) (at_call 3) submitted
      submitted-Balanced (omega (arith, asked-names))
