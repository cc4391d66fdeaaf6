-- ===== src/Stream/Reads.antt =====
-- `ReadStream` of src/calls/read.rs over lists of completions.
use onlyio.Base.{
  ℕ, ◌+◌, ◌*◌, ◌<◌, ◌≡◌, refl, ◌⊎◌, inl, inr, Bool, true, false, Bool-cases, List, [], ◌∷◌, Option,
  none, some, ok, arith, if◌then◌else◌, lt→ltb,
}
use onlyio.Base.Int.{is_negative, as_u32}
use onlyio.UserData.{TaskInfo}
use onlyio.BufPool.{BufPool, RwBuffer, buf_size, checkout_read}
use onlyio.Runtime.{Runtime, pages}
use onlyio.Runtime.Dispatch.{with_current}
use onlyio.Calls.{Poll}
use onlyio.Calls.Read.{ReadStreamState, poll_next_read}
use onlyio.Stream.{poll_each, poll_next_future}
use onlyio.Stream.Fused.{after}
use onlyio.Stream.Instances.{read_stream}

module _ (buffer_select : ℕ → Option ℕ) (more : ℕ → Bool) (p : BufPool) (fd : ℕ) where
  -- The handle of the slot that a completion names
  abbrev pub slot_of : TaskInfo → Option RwBuffer
  slot_of i = elim (buffer_select i.flags) [
    | none ↦ none
    | some b ↦ some (record {
      ptr = p.base + b * buf_size pages;
      buf_idx = b;
      fd_idx = fd;
      bytes = as_u32 i.result;
      committed = false;
    })
  ]

  pub slot_of-named :
      (i : TaskInfo) (b : ℕ)
      → buffer_select i.flags ≡ some b
      → slot_of i
        ≡ some (record {
          ptr = p.base + b * buf_size pages;
          buf_idx = b;
          fd_idx = fd;
          bytes = as_u32 i.result;
          committed = false;
        })
  slot_of-named i b e = ground (arith, e)

  -- What the completions mean: the slot of each, up to the first error or through the first without
  -- `more`; from then on the end.
  abbrev pub slots : Bool → List TaskInfo → List (Poll (Option RwBuffer))
  slots alive [] = []
  slots alive (i ∷ is) =
      if alive
      then (if is_negative i.result
          then Poll.ready none ∷ slots false is
          else Poll.ready (slot_of i) ∷ slots (more i.flags) is)
      else Poll.ready none ∷ slots false is

  -- Whether the stream still runs after the completions
  abbrev pub alive_after : Bool → List TaskInfo → Bool
  alive_after alive [] = alive
  alive_after alive (i ∷ is) =
      alive_after (if alive then (if is_negative i.result then false else more i.flags) else false)
        is

  -- A completion is an error, or names a read slot.
  abbrev pub Named : List TaskInfo → Type 0
  Named [] = Unit {0}
  Named (i ∷ is) =
      ((is_negative i.result ≡ true)
        ⊎ ((is_negative i.result ≡ false)
            × (b : ℕ) × (buffer_select i.flags ≡ some b)
            × (b < p.read_count)))
      × Named is

abbrev pub read_state : Bool → ReadStreamState
read_state b = if b then ReadStreamState.running else ReadStreamState.done

module _ {F : Type 0} (buffer_select : ℕ → Option ℕ) (more : ℕ → Bool) (fd : ℕ) where
  each_lem :
      (is : List TaskInfo) (alive : Bool) (rt : Runtime F)
      → Named buffer_select more rt.buffer fd is
      → poll_each
          (read_stream more buffer_select)
          is
          (record { fd = fd; state = read_state alive })
          rt
        ≡ ok (
          slots buffer_select more rt.buffer fd alive is,
          record {
            fd = fd;
            state = read_state (alive_after buffer_select more rt.buffer fd alive is);
          },
          after is rt,
        )
  unfolding poll_each poll_next_read poll_next_future checkout_read
  each_lem [] alive rt n = refl
  each_lem (i ∷ is) false rt (n, ns) = rw (each_lem is false (with_current rt i) ns)
  each_lem (i ∷ is) true rt (inl e, ns) = rw (e, each_lem is false (with_current rt i) ns)
  each_lem (i ∷ is) true rt (inr (e, b, f, l), ns) = elim (Bool-cases (more i.flags)) [
    | inl m ↦ rw (
      e,
      f,
      lt→ltb b rt.buffer.read_count l,
      m,
      slot_of-named buffer_select more rt.buffer fd i b f,
      each_lem is true (with_current rt i) ns,
    )
    | inr m ↦ rw (
      e,
      f,
      lt→ltb b rt.buffer.read_count l,
      m,
      slot_of-named buffer_select more rt.buffer fd i b f,
      each_lem is false (with_current rt i) ns,
    )
  ]

  -- A read stream that runs, polled at each of a list of completions that are errors or name a read
  -- slot, hands out the slot of each with its address and its byte count, up to the first error or
  -- through the first without `more`, and the end from then on; CURRENT_TASK is that of the last
  -- completion, and nothing else of the runtime changes.
  pub poll_each-slots :
      (is : List TaskInfo) (rt : Runtime F)
      → Named buffer_select more rt.buffer fd is
      → poll_each
          (read_stream more buffer_select)
          is
          (record { fd = fd; state = ReadStreamState.running })
          rt
        ≡ ok (
          slots buffer_select more rt.buffer fd true is,
          record {
            fd = fd;
            state = read_state (alive_after buffer_select more rt.buffer fd true is);
          },
          after is rt,
        )
  poll_each-slots is rt n = each_lem is true rt n
