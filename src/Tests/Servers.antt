-- ===== src/Tests/Servers.antt =====
-- The server of two connections, over an allocator with two blocks.
use onlyio.Base.{
  ℕ, ◌*◌, ◌^◌, ◌≡◌, refl, true, false, Bool, ◌&&◌, [], Option, none, some, arith, Ensures, ltb,
  if◌then◌else◌,
}
use onlyio.Slab.{is_task}
use onlyio.Runtime.{Runtime}
use onlyio.Runtime.Acts.{HasRoom}
use onlyio.Runtime.Loop.{block_on}
use onlyio.Runtime.Turns.Ends.{Ends}
use onlyio.Runtime.Setup.Ready.{new-Idle}
use onlyio.Runtime.Cost.Finishes.{Over}
use onlyio.Calls.Accept.{AcceptFuture}
use onlyio.Server.{Server, Program, poll_program}
use onlyio.Server.Acting.{Allocator, poll_program-Lawful}
use onlyio.Server.Runs.{block_on-server}
use onlyio.Tests.Accounts.{kernel, accepts, waits, completes, even}
use onlyio.Tests.Runs.{more}
use onlyio.Tests.Setups.{granted, granted-Granted, buffer_select}
use onlyio.Tests.Finishes.{all-Last}

abbrev is_vacant : Runtime Program → ℕ → Bool
is_vacant rt p = elim (rt.store.cells p) [ none ↦ true | some t ↦ false ]

abbrev allocate : Runtime Program → Option ℕ
allocate rt =
    if ltb 0 rt.tasks.len && ltb (rt.tasks.len * 2) (2 ^ 31)
    then if is_vacant rt 8192 then some 8192 else if is_vacant rt 12288 then some 12288 else none
    else none

allocate-unused : (rt : Runtime Program) (p : ℕ) → allocate rt ≡ some p → rt.store.cells p ≡ none
allocate-unused rt p e = ground arith

allocate-even : (rt : Runtime Program) (p : ℕ) → allocate rt ≡ some p → is_task p ≡ true
unfolding is_task
allocate-even rt p e = ground arith

allocate-room : (rt : Runtime Program) (p : ℕ) → allocate rt ≡ some p → HasRoom rt.tasks
allocate-room rt p e = ground arith

abbrev memory : Allocator allocate
memory = record { unused = allocate-unused; even = allocate-even }

abbrev started : Runtime Program
started = (new-Idle granted granted-Granted).0

block_on-server_example :
    Ensures
      (λ t.
        Ends
          (poll_program buffer_select allocate 96 8 3)
          (poll_program-Lawful buffer_select allocate memory allocate-room 96 8 3)
          more
          accepts
          waits
          completes
          kernel
          t
        × Over t)
      (block_on
        (poll_program buffer_select allocate 96 8 3)
        more
        accepts
        waits
        completes
        7
        0
        4096
        64
        8
        (Program.main (Server.accepting 1 (AcceptFuture.pending 3)))
        []
        started)
block_on-server_example =
    block_on-server buffer_select allocate memory allocate-room 96 8 3 more accepts waits completes
      kernel all-Last 7 0 4096 64 8 1 [] started ((new-Idle granted granted-Granted).2) refl even
      (omega arith)
