-- ===== src/Runtime/Acts/Entries.antt =====
-- Which index an entry names, and how often a list of entries names it.
use onlyio.Base.{
  ℕ, ◌+◌, ◌%◌, ◌^◌, ◌<◌, ◌≡◌, List, [], ◌∷◌, ◌++◌, arith, if◌then◌else◌, ◌==◌, length,
}
use onlyio.Sqe.{Entry}
use onlyio.UserData.{
  TaskInfo, UserDataPayload, from_user_data, into_user_data, current_udata, info_payload,
}
use onlyio.BufPool.{WBuffer}
use onlyio.Runtime.Multiple.{entries}

-- The slab index in the `user_data` of an entry
abbrev pub idx_of : Entry → ℕ
idx_of e = (from_user_data e.user_data).task_idx

-- How many of the entries name the index
abbrev pub refs : ℕ → List Entry → ℕ
refs i [] = 0
refs i (e ∷ es) = (if idx_of e == i then 1 else 0) + refs i es

pub refs-append : (i : ℕ) (us vs : List Entry) → refs i (us ++ vs) ≡ refs i us + refs i vs
refs-append i [] vs = ground arith
refs-append i (e ∷ us) vs = ground (arith, refs-append i us vs)

pub idx_of-into :
    (p : UserDataPayload)
    → p.task_idx < 2 ^ 32
    → (from_user_data (into_user_data p)).task_idx ≡ p.task_idx
unfolding from_user_data into_user_data
idx_of-into p h = omega arith

pub idx_of-current :
    (t : TaskInfo)
    → t.tag.task_idx < 2 ^ 32
    → (from_user_data (current_udata t)).task_idx ≡ t.tag.task_idx
unfolding current_udata info_payload
idx_of-current t h = idx_of-into (info_payload t) h

-- The entries of a write to several descriptors all name the task that makes them.
pub refs-entries :
    (j : ℕ) (buffer : WBuffer) (len : ℕ) (p : UserDataPayload) (fds : List ℕ) (idx : ℕ)
    → p.task_idx < 2 ^ 32
    → refs j (entries buffer len p fds idx) ≡ (if p.task_idx == j then length fds else 0)
refs-entries j buffer len p [] idx h = ground arith
refs-entries j buffer len p (fd ∷ fds) idx h = ground (
  arith,
  idx_of-into (record p { response_gen = idx % 2 ^ 16 }) h,
  refs-entries j buffer len p fds (idx + 1) h,
)
