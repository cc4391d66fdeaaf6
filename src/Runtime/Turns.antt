-- ===== src/Runtime/Turns.antt =====
-- Whole runs of `block_on` on the accounts, over a kernel that answers only what it was given.
pub mod Ends
use onlyio.Base.{
  ℕ, zero, suc, ◌+◌, ◌-◌, ◌^◌, ◌<◌, ◌≡◌, refl, sym, ap, subst, ◌∙◌, true, false, Bool, inl, inr,
  Bool-cases, List, [], ◌∷◌, ◌++◌, Option, Option-cases, some, none, Outcome, ok, ◌>>=◌, arith,
  Ensures, Ensures.returns, Ensures.stops, Ensures-bind, Ensures-map, if◌then◌else◌, ◌==◌, ==→eq,
  eq→==,
}
use onlyio.Sqe.{Entry}
use onlyio.UserData.{CqeEntry, from_entry, from_user_data}
use onlyio.Task.Store.{update}
use onlyio.Slab.{Slab, is_task}
use onlyio.Slab.Map.{lookup, idle-lookup, lookup-idle}
use onlyio.Runtime.{Runtime}
use onlyio.Runtime.Loop.{
  Turn, check_free, handle_all, drain, submit_and_wait, collect, turn, loop, block_on,
}
use onlyio.Runtime.Acts.{HasRoom}
use onlyio.Runtime.Acts.Entries.{refs, idx_of, refs-append}
use onlyio.Runtime.Acts.Balance.{Balanced, Balanced-ext}
use onlyio.Runtime.Polls.{Lawful}
use onlyio.Runtime.Polls.Whole.{
  after_cqe, handle_cqe_entry-Balanced, spawn-Balanced, free_unsed_slab_slot-Balanced,
}

-- The completions `cs`, each of one of the entries `flight`, leave the entries `flight'`: an entry is
-- answered for the last time by a completion without the flag `more`.
pub data Answers (more : ℕ → Bool) : List Entry → List CqeEntry → List Entry → Type 0 where
  nothing : {flight : List Entry} → Answers more flight [] flight
  answers :
      {flight flight' : List Entry} {cs : List CqeEntry}
      → (us vs : List Entry) (e : Entry) (c : CqeEntry) → flight ≡ us ++ e ∷ vs
      → c.user_data ≡ e.user_data
      → Answers more (if more c.flags then flight else us ++ vs) cs flight'
      → Answers more flight (c ∷ cs) flight'

-- What the runtime relies on of the kernel: it holds the entries that were pushed and not answered for
-- the last time, and every completion answers one of them.
pub record Kernel {K : Type 0} (more : ℕ → Bool) (push_multiple : K → List Entry → Option K)
    (wait : K → Option K) (completion : K → List CqeEntry × K) : Type 0 where
  pub flight : K → List Entry
  pub pushes :
      (k k' : K) (es : List Entry) → push_multiple k es ≡ some k' → flight k' ≡ flight k ++ es
  pub waits : (k k' : K) → wait k ≡ some k' → flight k' ≡ flight k
  pub completes : (k : K) → Answers more (flight k) (completion k).0 (flight (completion k).1)

-- The claims of entries
abbrev pub held_by : List Entry → ℕ → ℕ
held_by es j = refs j es

none_held : (es : List Entry) → ((j : ℕ) → refs j es ≡ 0) → es ≡ []
none_held [] h = refl
none_held (e ∷ es) h = absurd (ground (arith, h (idx_of e)))

from_entry-idx :
    (c : CqeEntry) (e : Entry) → c.user_data ≡ e.user_data → (from_entry c).tag.task_idx ≡ idx_of e
unfolding from_entry
from_entry-idx c e h = ap (λ u. (from_user_data u).task_idx) h

refs-among :
    (j : ℕ) (us vs : List Entry) (e : Entry)
    → refs j (us ++ e ∷ vs) ≡ (if idx_of e == j then 1 else 0) + refs j (us ++ vs)
refs-among j us vs e = omega (arith, refs-append j us (e ∷ vs), refs-append j us vs)

-- A completion takes the claim of the entry that it answers for the last time.
after_cqe-refs :
    (more : ℕ → Bool) (flight us vs : List Entry) (e : Entry) (c : CqeEntry)
    → flight ≡ us ++ e ∷ vs
    → c.user_data ≡ e.user_data
    → (0 < refs (from_entry c).tag.task_idx flight)
      × ((j : ℕ)
          → after_cqe (held_by flight) more c j
            ≡ refs j (if more c.flags then flight else us ++ vs))
after_cqe-refs more flight us vs e c there same =
    let own = from_entry-idx c e same in
    (
      rw (there, own) (ground (arith, refs-among (idx_of e) us vs e)),
      λ j. rw (there, own) (ground (arith, refs-among (idx_of e) us vs e, refs-among j us vs e)),
    )

module _ {F : Type 0} (poll_fn : F → Runtime F → Outcome (F × Runtime F)) (law : Lawful poll_fn)
    (more : ℕ → Bool) where
  -- When the counts of the tasks are the numbers of the entries that name them, which wait to be
  -- submitted or are `flight`, and no waker waits, then handling completions that answer entries of
  -- `flight` accesses no freed block and polls no freed slot, and has no other undefined behaviour,
  -- but for the count that the last release of a task reads back from the block it has just freed. The
  -- counts are afterwards again the numbers of entries, of those that wait and of those that `flight`
  -- still has. This is for futures that do to the runtime only what `Acts` has.
  pub handle_all-Balanced :
      {flight flight' : List Entry} {cs : List CqeEntry} (rt : Runtime F)
      → Answers more flight cs flight'
      → Balanced (held_by flight) rt
      → Ensures (Balanced (held_by flight')) (handle_all poll_fn more cs rt)
  unfolding handle_all
  handle_all-Balanced rt nothing b = returns b
  handle_all-Balanced {flight} rt (answers us vs e c there same rest) b =
      let claim = after_cqe-refs more flight us vs e c there same in
      Ensures-bind (handle_cqe_entry-Balanced poll_fn law (held_by flight) more c rt b claim.0)
        λ v h. handle_all-Balanced v rest (Balanced-ext v claim.1 h)
