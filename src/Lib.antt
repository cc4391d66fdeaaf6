-- ===== src/Lib.antt =====
-- onlyio: an async runtime on io_uring for one thread. Tasks are erased futures in counted heap blocks
-- (src/task.rs), indexed by a slab with an intrusive free list (src/task_slab.rs). A task that
-- calls the kernel queues a submission whose 64-bit `user_data` names its slab index and the number
-- of the call; the completion finds the task again, which compares that number with its own
-- (src/runtime.rs). Buffers come from one allocation (src/buf_pool.rs): read slots go to the kernel
-- through a shared ring and come back with completions, write slots are counted handles.
--
--   * Base: the names that all modules share. `Outcome` is a result, a panic with its reason, or
--     undefined behaviour (a read through a pointer to a freed block or outside an allocation, or an
--     unsafe call outside its contract).
--   * Words: the operations on `u16` words around MULTIPLE_MASK, as arithmetic.
--   * UserData: `UserDataPayload`, `TaskInfo`, `Tag` and `Waker` of src/runtime.rs, and the internal
--     `user_data` of src/buf_pool.rs.
--   * Task: the header `RawTask`, and `Task.Store`, the memory in which the blocks lie: a handle is an
--     address, the store also keeps RUNTIME_FREE_LIST and the futures dropped so far. The last
--     `release` of a task reads the count back through the block that it has just freed (src/task.rs,
--     line 255), which is undefined behaviour; no caller looks at the value. The model records the
--     read in `stale_reads` and goes on, so that the rest of a run can be stated: whatever is said
--     below to be without undefined behaviour is so but for this read.
--   * Slab: src/task_slab.rs. A slot is a word: an even task address or a link of the free list.
--   * Sqe: submission entries, as passed to the builders of the `io_uring` crate.
--   * BufPool: src/buf_pool.rs. Addresses and counts; `BufPool.Bytes` has the slices and the bytes.
--   * BufRing: the ring of read slots that `Runtime::new` registers and `release_buf_to_ring` feeds;
--     `BufRing.Shares` lets the kernel and the runtime take turns in any order.
--   * Runtime: the runtime and its thread-locals as one record that every call takes and returns.
--     `Runtime.Dispatch` has the parts that poll tasks: `handle_cqe_entry`, `spawn`, the freeing of
--     slab slots, and one turn of the wake list.
--     `Runtime.Loop` is `block_on`, with the kernel's side of the ring as a parameter, and
--     `Runtime.Setup` is `Runtime::new`.
--     `Runtime.Account` says who holds references to which task. `Runtime.Acts` is what a future does
--     to the runtime when it is polled, spawns within spawns included; `Runtime.Polls` and
--     `Runtime.Turns` carry the account through polls, completions, spawns and `block_on`.
--     `Runtime.Cost` counts what futures can still queue, and brings `block_on` to an end.
--   * Calls: the futures and streams of src/calls as state machines over the runtime; `Calls.Acting`
--     has them as what `Runtime.Acts` allows, and `Calls.Acting.Costs` what they can still queue.
--     They reach the runtime through `Runtime.Submit`.
--   * Stream: src/stream.rs, the trait with its contract, and the two streams of src/calls.
--   * Connexion: `handle_connexion` of src/lib.rs, which reads and writes back.
--   * Server: the main task of `test_two_connexion` and `test_close` of src/lib.rs, which accepts
--     connections and spawns a `handle_connexion` for each.
--   * Echo: the two servers over streams in the tests of src/lib.rs.
--   * Tests: runs on concrete values.
--
-- Parameters: what a future does when it is polled (`poll_fn`, which may change the runtime in any
-- way), the reading of completion flags (`io_uring::cqueue`), and the addresses that the allocator
-- returns. Machine integers are natural numbers with their wrap or their check written out; the
-- arithmetic is that of a build with overflow checks and debug assertions. A `WBuffer` holds the index
-- of its slot, and the pool that its raw pointer leads to is passed along.
-- The loop of `block_on` and the draining of the wake list have no bound in the source: they take fuel,
-- and running out of it is a result of its own. `Runtime.Cost` has how many turns are enough, for
-- futures with a bound on the entries that they can still queue, if no completion has the flag that others
-- of its entry follow; no
-- task is then on the wake list, so that no fuel is needed for it. All other loops are structural recursion.
-- `Runtime.Turns.Kernel` is what the account relies on of the kernel: it holds the entries that it was
-- given, and each completion answers one of them, for the last time if it has not the flag `more`.
-- The account is for futures that use no waker and no `WBuffer::submit`: a waker takes no reference
-- when it is made and gives one back when it is dropped, and the completion of `submit` names a buffer
-- where a task is expected.
-- Not modelled: dropping a future and what it holds, failure of the allocator in `Task::new` and the
-- slab, the deallocation of pool and ring, printing and debug output, the re-exports of src/lib.rs, and
-- the clients of its tests.
pub mod Base
pub mod Words
pub mod UserData
pub mod Task
pub mod Slab
pub mod Sqe
pub mod BufPool
pub mod BufRing
pub mod Runtime
pub mod Calls
pub mod Stream
pub mod Connexion
pub mod Server
pub mod Echo
pub mod Tests
