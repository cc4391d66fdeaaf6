-- ===== src/Tests/Streams.antt =====
-- The servers over streams, and streams that are awaited again.
use onlyio.Base.{
  inr, ℕ, ◌*◌, ◌/◌, ◌%◌, ◌^◌, ◌≡◌, refl, true, Option, none, some, ok, panics, expect_none, ◌>>=◌,
  arith, if◌then◌else◌, ◌==◌,
}
use onlyio.Base.Int.{pos, is_negative, as_u32}
use onlyio.UserData.{CqeEntry, from_entry, info_payload}
use onlyio.UserData.RoundTrip.{InRange}
use onlyio.Task.{RawTask, multiple, evaluate_syscall_nb}
use onlyio.Task.Store.{write_cell}
use onlyio.Slab
use onlyio.Runtime.{Runtime, release_read_buf}
use onlyio.Runtime.Dispatch.{with_current}
use onlyio.Runtime.Send.{InSync, counted}
use onlyio.Runtime.Turns.{held_by}
use onlyio.Calls.{Poll}
use onlyio.Calls.Accept.{AcceptStream, AcceptStreamState}
use onlyio.Calls.Read.{ReadStream, ReadStreamState}
use onlyio.Calls.Commit.{CommitFuture}
use onlyio.Calls.Slots.{handle}
use onlyio.Calls.Acting.Futures.{Does}
use onlyio.Stream.Instances.{accept_stream, read_stream}
use onlyio.Stream.Again.{items_of, copies, items_of-copies}
use onlyio.Echo.{Echo, Totals, poll_echo, poll_totals}
use onlyio.Echo.Messages.{servers-Acts, poll_totals-mistakes}
use onlyio.Echo.Mixed.{answered, poll_echo-mistakes}
use onlyio.Tests.Tasks.{task}
use onlyio.Tests.Runs.{rt, at_call, more}
use onlyio.Tests.Setups.{buffer_select}
use onlyio.Tests.Accounts.{started_result, submitted, submitted-Polling, asked}

-- A completion for the slot 0, with more to come
abbrev named : Runtime ℕ
named = record rt { current = record (at_call 3) { flags = 2 } }

items_of-copies_example :
    (items_of
        (accept_stream more)
        5
        (record { listen_fd = 3; state = AcceptStreamState.running })
        named
      ≡ ok (
        copies (accept_stream {F = ℕ} more) 5 (Poll.ready (some (as_u32 named.current.result))),
        record { listen_fd = 3; state = AcceptStreamState.running },
        named,
      ))
    × (items_of
          (read_stream more buffer_select)
          5
          (record { fd = 9; state = ReadStreamState.running })
          named
        ≡ ok (
          copies (read_stream {F = ℕ} more buffer_select) 5 (Poll.ready (some (handle named 0 9))),
          record { fd = 9; state = ReadStreamState.running },
          named,
        ))
items_of-copies_example =
    items_of-copies buffer_select more 5 3 9 0 named refl refl refl (omega arith)

-- The first message of a stream, and the second
abbrev first : CqeEntry
first = record { user_data = 0x8003 * 2 ^ 48; result = pos 12; flags = 2 }

abbrev second : CqeEntry
second = record { user_data = 0x8003 * 2 ^ 48; result = pos 7; flags = 6 }

abbrev streaming : RawTask ℕ
streaming = record task { syscall_nb = 0x8003 }

abbrev received : Runtime ℕ
received = record rt {
  store = write_cell rt.store 4096 (some streaming);
  current = record (at_call 0x8003) { flags = 2 };
}

received-indexed : Slab.index received.tasks 0 ≡ ok 4096
unfolding Slab.index
received-indexed = refl

received-InRange : InRange (info_payload received.current)
unfolding info_payload
received-InRange = record { idx_in = omega arith; gen_in = omega arith; nb_in = omega arith }

received-InSync : InSync received 4096 streaming
received-InSync = record {
  indexed = received-indexed;
  live = refl;
  room = omega arith;
  same = refl;
  ranged = received-InRange;
}

received-first : received.current ≡ from_entry first
unfolding from_entry
received-first = refl

abbrev conns : AcceptStream
conns = record { listen_fd = 3; state = AcceptStreamState.running }

abbrev reads : ReadStream
reads = record { fd = 9; state = ReadStreamState.running }

poll_echo-mistakes_example :
    (poll_echo buffer_select more (Echo.reading conns reads) received
      ≡ ok (
        Poll.pending,
        Echo.committing conns reads
            (record (handle received 0 9) { committed = true })
            (CommitFuture.pending 0),
        answered buffer_select more received 4096 streaming 9 0 first.user_data,
      ))
    × (evaluate_syscall_nb (counted streaming) (from_entry second).tag.syscall_nb ≡ multiple)
    × (poll_echo buffer_select more
          (Echo.committing conns reads
            (record (handle received 0 9) { committed = true })
            (CommitFuture.pending 0))
          (with_current
            (answered buffer_select more received 4096 streaming 9 0 first.user_data)
            (from_entry second))
        ≡ (release_read_buf 0 (
              with_current
                (answered buffer_select more received 4096 streaming 9 0 first.user_data)
                (from_entry second))
            >>= λ rt'. ok (Poll.ready tt, Echo.done, rt')))
poll_echo-mistakes_example =
    poll_echo-mistakes buffer_select more conns 9 0 first second received 4096 streaming
      received-InSync received-first (omega arith) (omega arith) refl refl refl (omega arith) refl
      refl

-- The slot that a completion names, if bit 0 of the flags is set
abbrev select : ℕ → Option ℕ
select flags = if flags % 2 == 1 then some (flags / 4) else none

-- The length of a text with a number of one digit
abbrev shown : ℕ → ℕ
shown n = 34

poll_totals-mistakes_example :
    poll_totals select more shown
      (Totals.committing conns reads 12
        (record (handle rt 0 9) { committed = true })
        (CommitFuture.pending 0))
      rt
    ≡ (release_read_buf 0 rt >>= λ rt'.
        if is_negative rt.current.result
        then ok (Poll.ready tt, Totals.done, rt')
        else panics expect_none)
poll_totals-mistakes_example =
    poll_totals-mistakes select more shown conns 9 12 (record (handle rt 0 9) { committed = true })
      rt refl (omega arith) refl

servers-Acts_example :
    Does submitted (poll_echo select more (Echo.accepting conns) submitted)
    × Does submitted (poll_totals select more shown (Totals.reading conns reads 12) submitted)
servers-Acts_example =
    servers-Acts select more shown (held_by asked) 0 4096 submitted.tasks (Echo.accepting conns)
      (Totals.reading conns reads 12) submitted submitted-Polling (inr started_result)
