-- ===== src/Runtime/Setup/Ready.antt =====
-- What `Runtime::new` makes, and a run of `block_on` on it.
use onlyio.Base.{
  ℕ, ◌*◌, ◌-◌, ◌^◌, ◌≡◌, refl, sym, ap, Bool, true, false, inl, List, [], Option, none, ok, Outcome,
  arith, count, subst, ltb, leb, ◌&&◌, expect_none, assert_failed, Ensures, Ensures.returns,
  Ensures-ok, Ensures-bind, Ensures-assert,
}
use onlyio.Sqe.{Entry}
use onlyio.UserData.{CqeEntry, dummy}
use onlyio.Slab
use onlyio.Slab.{Slab, is_task}
use onlyio.Slab.Chain.{range_from}
use onlyio.Slab.Invariant.{WellFormed, with_capacity-WellFormed}
use onlyio.Slab.Map.{lookup, idle-lookup}
use onlyio.BufPool
use onlyio.BufPool.{range, replicate, build_iovecs, buf_size, page_size}
use onlyio.BufPool.Invariant
use onlyio.BufPool.Invariant.{new-WellFormed}
use onlyio.BufRing
use onlyio.BufRing.{BufRing}
use onlyio.BufRing.Window.{Holds}
use onlyio.BufRing.Init.{init-Holds}
use onlyio.Runtime.{Runtime, pages}
use onlyio.Runtime.Loop.{block_on}
use onlyio.Runtime.Account.{Account}
use onlyio.Runtime.Acts.{HasRoom}
use onlyio.Runtime.Acts.Balance.{Balanced, Balanced-ext}
use onlyio.Runtime.Acts.Entries.{refs}
use onlyio.Runtime.Acts.Writes.{add32-Defined}
use onlyio.Runtime.Polls.{Lawful}
use onlyio.Runtime.Turns.{Kernel}
use onlyio.Runtime.Turns.Ends.{Ends, block_on-Ends}
use onlyio.Runtime.Setup.{Answered, new, slot_count, first_capacity}

-- Everything that `Runtime::new` asks for is granted.
pub record Granted (a : Answered) : Type 0 where
  pub built : a.built ≡ true
  pub files : a.register_files_sparse ≡ none
  pub buffers : (iovs : List BufPool.Iovec) → a.register_buffers iovs ≡ none
  pub ring : a.register_buf_ring ≡ none
  pub some_memory : a.is_null ≡ false

new-reads :
    (base read_count write_count : ℕ)
    → Ensures
        (λ (p : BufPool.BufPool). p.read_count ≡ read_count)
        (BufPool.new pages base read_count write_count)
unfolding BufPool.new
new-reads base read_count write_count =
    Ensures-assert (ltb 0 read_count && ltb 0 write_count) assert_failed (
      Ensures-bind (add32-Defined read_count write_count) λ total d.
        Ensures-assert (leb (total * buf_size pages) (2 ^ 63 - page_size)) expect_none
          (returns refl))

module _ {F : Type 0} where
  -- A slab without tasks and an empty store
  pub fresh-Account :
      (rt : Runtime F) (fs : List ℕ)
      → WellFormed rt.tasks fs
      → rt.tasks.task_count ≡ 0
      → rt.store.free_list ≡ []
      → Account rt.tasks rt.store fs (λ j. 0)
  fresh-Account rt fs wf idle empty = record {
    wf = wf;
    live = λ j q e g. absurd (ground (arith, e, no_task j));
    claimed = λ j q e g. absurd (ground (arith, e, no_task j));
    small = λ j. omega arith;
    gone = λ j g. refl;
    once = λ j. ground (arith, empty);
    unused = λ j e. (refl, ap (count j) empty);
  }
    where
      no_task : (j : ℕ) → lookup rt.tasks j ≡ none
      no_task j = idle-lookup rt.tasks j wf.sized (omega (arith, wf.tallied, idle))

  -- The invariants of all parts of a runtime that has no task yet
  pub record Idle (rt : Runtime F) : Type 0 where
    pub balanced : Balanced (λ j. 0) rt
    pub room : HasRoom rt.tasks
    pub pool : BufPool.Invariant.WellFormed rt.buffer
    pub ring : Holds pages rt.buffer rt.buf_ring 0 (range slot_count 0)
    pub unused : (p : ℕ) → rt.store.cells p ≡ none
    pub idle : rt.pending ≡ []

  abbrev pub first_runtime : BufPool.BufPool → BufRing → Slab → Runtime F
  first_runtime b r s = record {
    tasks = s;
    store = record { cells = λ p. none; free_list = []; dropped = []; stale_reads = [] };
    buffer = b;
    buf_ring = r;
    pending = [];
    current = dummy;
    wake_list = [];
  }

  new-first_runtime :
      (a : Answered) (b : BufPool.BufPool) (r : BufRing) (s : Slab)
      → Granted a
      → BufPool.new pages a.base slot_count slot_count ≡ ok b
      → b.read_count ≡ slot_count
      → BufRing.init pages b ≡ ok r
      → Slab.with_capacity first_capacity ≡ ok s
      → new a ≡ ok (inl (first_runtime b r s))
  unfolding new
  new-first_runtime a b r s g made reads shared sized = rw (
    g.built,
    g.files,
    made,
    g.buffers (build_iovecs pages b),
    shared,
    g.ring,
    sized,
    reads,
    g.some_memory,
  )

  -- If the kernel and the allocator grant all that `Runtime::new` asks for, it returns a runtime that
  -- has no task, no claim on one, room for one, no entry, a well-formed pool, and a buffer ring that
  -- holds all 512 read slots for the kernel.
  pub new-Idle : (a : Answered) → Granted a → (rt : Runtime F) × (new a ≡ ok (inl rt)) × Idle rt
  new-Idle a g =
      let (b, made, pwf, free, rc) =
        new-WellFormed pages a.base slot_count slot_count (omega arith) (omega arith) (omega arith)
          (omega arith) in
      let reads = Ensures-ok (new-reads a.base slot_count slot_count) made in
      let (r, shared, holds) = init-Holds pages b reads in
      let (s, sized, wf, len, none_yet) =
        with_capacity-WellFormed first_capacity (omega arith) (omega arith) in
      (
        first_runtime b r s,
        new-first_runtime a b r s g made reads shared sized,
        record {
          balanced = (
            range_from first_capacity 0,
            fresh-Account (first_runtime b r s) (range_from first_capacity 0) wf none_yet refl,
            refl,
          );
          room = (omega (arith, len), λ e. omega (arith, len));
          pool = pwf;
          ring = subst (λ k. Holds pages b r 0 (range k 0)) reads holds;
          unused = λ p. refl;
          idle = refl;
        },
      )

module _ {F : Type 0} (poll_fn : F → Runtime F → Outcome (F × Runtime F)) (law : Lawful poll_fn)
    (more : ℕ → Bool) {K : Type 0} (push_multiple : K → List Entry → Option K) (wait : K → Option K)
    (completion : K → List CqeEntry × K) (kernel : Kernel more push_multiple wait completion) where
  pub block_on-safe :
      (turns wakes p size align : ℕ) (future : F) (k : K) (rt : Runtime F)
      → Idle rt
      → kernel.flight k ≡ []
      → is_task p ≡ true
      → Ensures
          (Ends poll_fn law more push_multiple wait completion kernel)
          (block_on poll_fn more push_multiple wait completion turns wakes p size align future k rt)
  block_on-safe turns wakes p size align future k rt i none_yet even =
      block_on-Ends poll_fn law more push_multiple wait completion kernel turns wakes p size align
        future k rt (Balanced-ext rt (λ j. sym (ap (refs j) none_yet)) i.balanced) (i.unused p) even
        i.room
