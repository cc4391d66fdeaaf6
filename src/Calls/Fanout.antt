-- ===== src/Calls/Fanout.antt =====
-- `write_multiple` of src/calls/write.rs: one write for each descriptor, whose completions come in any
-- order.
use onlyio.Base.{
  ℕ, zero, suc, ◌≡◌, ◌≢◌, refl, ap, ◌∙◌, List, [], ◌∷◌, ◌++◌, append-nil, append_assoc, some,
  Outcome, ok, ◌>>=◌, length, get_elem?, set, count, count-append, arith, ne→==, Distinct,
  Distinct-tail, Distinct-head, get_elem?-set_ne,
}
use onlyio.UserData.{TaskInfo, set_to_next_task}
use onlyio.BufPool.{WBuffer}
use onlyio.Slab.{u32_max}
use onlyio.Task.Store.{pred?}
use onlyio.Runtime.{Runtime, advance_syscall_nb}
use onlyio.Runtime.Dispatch.{with_current}
use onlyio.Calls.{Poll}
use onlyio.Calls.Write.{WriteResult, WriteMultipleFuture, report, poll_write_multiple}

-- The generations of the completions: the indices of their descriptors
abbrev pub gens : List TaskInfo → List ℕ
gens [] = []
gens (i ∷ is) = i.response_gen ∷ gens is

-- Each completion is for a descriptor of the list.
abbrev pub Names : List ℕ → List TaskInfo → List ℕ → Type 0
Names fds [] named = named ≡ []
Names fds (i ∷ is) [] = ⊥
Names fds (i ∷ is) (fd ∷ named) =
    (get_elem? fds i.response_gen ≡ some fd) × (fd ≢ u32_max) × Names fds is named

-- The failures of the completions, each with the descriptor that it is for
abbrev pub reports : ℕ → List ℕ → List TaskInfo → List WriteResult
reports len (fd ∷ named) (i ∷ is) = report fd len i.result ++ reports len named is
reports len [] is = []
reports len (fd ∷ named) [] = []

abbrev pub replicate : ℕ → Poll (List WriteResult) → List (Poll (List WriteResult))
replicate zero a = []
replicate (suc k) a = a ∷ replicate k a

Names-set :
    (fds : List ℕ) (g : ℕ) (is : List TaskInfo) (named : List ℕ)
    → count g (gens is) ≡ 0
    → Names fds is named
    → Names (set fds g u32_max) is named
Names-set fds g [] named c n = n
Names-set fds g (i ∷ is) [] c n = n
Names-set fds g (i ∷ is) (fd ∷ named) c (e, ne, n) = (
  get_elem?-set_ne fds g i.response_gen u32_max (ground arith) ∙ e,
  ne,
  Names-set fds g is named (omega arith) n,
)

pred?-suc : (n : ℕ) → pred? (suc n) ≡ some n
pred?-suc n = ground arith

module _ {F : Type 0} where
  -- The future polled at each of the completions
  unfoldable pub poll_each :
      List TaskInfo
      → WriteMultipleFuture
      → Runtime F
      → Outcome (List (Poll (List WriteResult)) × WriteMultipleFuture × Runtime F)
  poll_each [] s rt = ok ([], s, rt)
  poll_each (i ∷ is) s rt = do
    r ← poll_write_multiple s (with_current rt i)
    rest ← poll_each is r.1 r.2
    ok (r.0 ∷ rest.0, rest.1, rest.2)

  -- The runtime with CURRENT_TASK set to each in turn
  abbrev pub after : List TaskInfo → Runtime F → Runtime F
  after [] rt = rt
  after (i ∷ is) rt = after is (with_current rt i)

  module _ (len : ℕ) (buffer : WBuffer) where
    step_lem :
        (i : TaskInfo) (fd left : ℕ) (fds : List ℕ) (faileds : List WriteResult) (rt : Runtime F)
        → get_elem? fds i.response_gen ≡ some fd
        → fd ≢ u32_max
        → left ≢ 0
        → poll_write_multiple
            (WriteMultipleFuture.pending (suc left) fds faileds len buffer)
            (with_current rt i)
          ≡ ok (
            Poll.pending,
            WriteMultipleFuture.pending left
                (set fds i.response_gen u32_max)
                (faileds ++ report fd len i.result)
                len
                buffer,
            with_current rt i,
          )
    unfolding poll_write_multiple
    step_lem i fd left fds faileds rt e ne l =
        rw (pred?-suc left, e, ne→== fd u32_max ne, ne→== left 0 l)

    last_lem :
        (i : TaskInfo) (fd : ℕ) (fds : List ℕ) (faileds : List WriteResult) (rt rt' : Runtime F)
        → get_elem? fds i.response_gen ≡ some fd
        → fd ≢ u32_max
        → advance_syscall_nb i.tag (with_current rt i) ≡ ok rt'
        → poll_write_multiple
            (WriteMultipleFuture.pending 1 fds faileds len buffer)
            (with_current rt i)
          ≡ ok (
            Poll.ready (faileds ++ report fd len i.result),
            WriteMultipleFuture.pending 0 (set fds i.response_gen u32_max) [] len buffer,
            record rt' { current = set_to_next_task rt'.current },
          )
    unfolding poll_write_multiple
    last_lem i fd fds faileds rt rt' e ne a = rw (e, ne→== fd u32_max ne, a)

    -- The polls before the last one wait, the last one is ready with the failures.
    abbrev pub Finishes :
        List TaskInfo
        → List ℕ
        → List ℕ
        → List WriteResult
        → Runtime F
        → TaskInfo
        → ℕ
        → Runtime F
        → Type 0
    Finishes is named fds faileds rt last fd rt' =
        (fds' : List ℕ) × (poll_each (is ++ last ∷ [])
            (WriteMultipleFuture.pending (suc (length is)) fds faileds len buffer) rt
          ≡ ok (
            replicate (length is) Poll.pending
                ++ Poll.ready (faileds ++ reports len (named ++ fd ∷ []) (is ++ last ∷ [])) ∷ [],
            WriteMultipleFuture.pending 0 fds' [] len buffer,
            record rt' { current = set_to_next_task rt'.current },
          ))

gens-append : (is js : List TaskInfo) → gens (is ++ js) ≡ gens is ++ gens js
gens-append [] js = refl
gens-append (i ∷ is) js = ap (λ gs. i.response_gen ∷ gs) (gens-append is js)

-- A completion that is taken first says nothing of the descriptors of the others.
first_apart :
    (i : TaskInfo) (is : List TaskInfo) (last : TaskInfo)
    → Distinct (gens (i ∷ is ++ last ∷ []))
    → (count i.response_gen (gens is) ≡ 0) × (i.response_gen ≢ last.response_gen)
first_apart i is last d =
    let apart = Distinct-head i.response_gen (gens (is ++ last ∷ [])) d in
    let split =
      ap (count i.response_gen) (gens-append is (last ∷ []))
      ∙ count-append i.response_gen (gens is) (gens (last ∷ [])) in
    (omega (arith, apart, split), λ e. ground (arith, apart, split))

module _ {F : Type 0} (len : ℕ) (buffer : WBuffer) where
  -- Of `write_multiple` on descriptors other than `u32::MAX`, waiting for as many completions as there
  -- are, each for another index of the list and in any order: every poll but the last is pending, the
  -- last one moves the task on to its next call and is ready with the failures of the completions, in
  -- their order and each with its own descriptor. The assertion against a repeated index never fails.
  pub poll_each-Finishes :
      (is : List TaskInfo) (named fds : List ℕ) (faileds : List WriteResult) (rt : Runtime F)
      (last : TaskInfo) (fd : ℕ) (rt' : Runtime F)
      → Distinct (gens (is ++ last ∷ []))
      → Names fds is named
      → get_elem? fds last.response_gen ≡ some fd
      → fd ≢ u32_max
      → advance_syscall_nb last.tag (with_current (after is rt) last) ≡ ok rt'
      → Finishes len buffer is named fds faileds rt last fd rt'
  unfolding poll_each
  poll_each-Finishes [] named fds faileds rt last fd rt' d n e ne a = (
    set fds last.response_gen u32_max,
    rw (n, last_lem len buffer last fd fds faileds rt rt' e ne a, append-nil),
  )
  poll_each-Finishes (i ∷ is) [] fds faileds rt last fd rt' d n e ne a = elim n [ ]
  poll_each-Finishes (i ∷ is) (g ∷ named) fds faileds rt last fd rt' d (at, valid, n) e ne a =
      let apart = first_apart i is last d in
      let rest =
        poll_each-Finishes is named (set fds i.response_gen u32_max)
          (faileds ++ report g len i.result) (with_current rt i) last fd rt'
          (Distinct-tail i.response_gen (gens (is ++ last ∷ [])) d)
          (Names-set fds i.response_gen is named apart.0 n)
          (get_elem?-set_ne fds i.response_gen last.response_gen u32_max apart.1 ∙ e) ne a in
      (
        rest.0,
        rw (
          step_lem len buffer i g (suc (length is)) fds faileds rt at valid (λ z. omega arith),
          rest.1,
          append_assoc faileds (report g len i.result),
        ),
      )
