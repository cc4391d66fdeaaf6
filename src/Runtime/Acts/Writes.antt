-- ===== src/Runtime/Acts/Writes.antt =====
-- `send_multiple_write` adds as many references to its task as it queues entries that name it.
use onlyio.Base.{
  ℕ, ◌+◌, ◌%◌, ◌^◌, ◌<◌, ◌≡◌, refl, ap, ◌∙◌, Bool-cases, inl, inr, List, [], ◌∷◌, ◌++◌, append-nil,
  append_assoc, arith, assert_failed, Ensures, Ensures.returns, Ensures.stops, Ensures-bind,
  Ensures-map, Defined, Defined-expect, Defined-assert, ltb, ◌==◌, if◌then◌else◌, length, get_elem?,
}
use native.Mathlib.Nat.{mod-eq_of_lt}
use onlyio.Sqe.{Entry, write_fixed}
use onlyio.UserData.{UserDataPayload, into_user_data, info_payload}
use onlyio.Task.{add_rc}
use onlyio.Slab.{Slab}
use onlyio.BufPool
use onlyio.BufPool.{BufPool, WBuffer, sub32, add32}
use onlyio.Runtime.{Runtime, push_writes, send_multiple_write}
use onlyio.Runtime.Multiple.{entries}
use onlyio.Runtime.Account.Claims.{add_rc-Adds}
use onlyio.Runtime.Acts.Entries.{refs-entries}
use onlyio.Runtime.Acts.Balance.{Polling, Polling-index, Polling-lt, rebuffer}
use onlyio.Runtime.Acts.Queue.{queue-Polling}

sub32-Defined : (a b : ℕ) → Defined (sub32 a b)
sub32-Defined a b = elim (Bool-cases (ltb a b)) [ inl e ↦ rw e stops | inr e ↦ rw e (returns tt) ]

pub add32-Defined : (a b : ℕ) → Defined (add32 a b)
add32-Defined a b = elim (Bool-cases (ltb (a + b) (2 ^ 32))) [
  | inl e ↦ rw e (returns tt)
  | inr e ↦ rw e stops
]

-- A clone is the same handle.
pub clone-same :
    (p : BufPool) (w : WBuffer) → Ensures (λ (r : WBuffer × BufPool). r.0 ≡ w) (BufPool.clone p w)
unfolding BufPool.clone
clone-same p w = Ensures-bind (sub32-Defined w.abs_idx p.read_count) λ rel d.
    Ensures-bind (Defined-expect (get_elem? p.write_rc rel) assert_failed) λ rc u.
      Ensures-bind (Defined-assert (ltb 0 rc) assert_failed)
        λ u d. Ensures-bind (add32-Defined rc 1) λ next u. returns refl

pub drop-Defined : (p : BufPool) (w : WBuffer) → Defined (BufPool.drop p w)
unfolding BufPool.drop BufPool.on_write_cqe
drop-Defined p w = Ensures-bind (sub32-Defined w.abs_idx p.read_count) λ rel d.
    Ensures-bind (Defined-expect (get_elem? p.write_rc rel) assert_failed)
      λ rc u. Ensures-bind (Defined-assert (ltb 0 rc) assert_failed) λ u d. returns tt

write-makes :
    (p : BufPool) (w : WBuffer) (fd len udata : ℕ)
    → Ensures
        (λ (r : Entry × BufPool).
          r.0 ≡ record { op = write_fixed fd w.ptr len (w.abs_idx % 2 ^ 16); user_data = udata })
        (BufPool.write p w fd len udata)
unfolding BufPool.write BufPool.index
write-makes p w fd len udata = Ensures-bind (drop-Defined p w) λ p' u. returns refl

module _ {F : Type 0} where
  -- The loop queues its entries and touches only the pool besides.
  pub push_writes-entries :
      (buffer : WBuffer) (len : ℕ) (payload : UserDataPayload) (fds : List ℕ) (idx : ℕ)
      (rt : Runtime F)
      → Ensures
          (λ rt'.
            (b : BufPool) × (rt' ≡ record rt {
              buffer = b;
              pending = rt.pending ++ entries buffer len payload fds idx;
            }))
          (push_writes fds idx buffer len payload rt)
  unfolding push_writes
  push_writes-entries buffer len payload [] idx rt = returns (rt.buffer, rw append-nil refl)
  push_writes-entries buffer len payload (fd ∷ fds) idx rt =
      Ensures-bind (clone-same rt.buffer buffer) λ c same.
        Ensures-bind
          (write-makes c.1 c.0 fd len
            (into_user_data (record payload { response_gen = idx % 2 ^ 16 })))
          λ w made.
            Ensures-map
              (push_writes-entries buffer len payload fds (idx + 1)
                (record rt { buffer = w.1; pending = rt.pending ++ w.0 ∷ [] }))
              λ rt' h. (h.0, h.1 ∙ rw (made, same, append_assoc rt.pending) refl)

  -- What comes after the loop, on what the loop leaves
  pub send_multiple_write-Polling :
      (extra : ℕ → ℕ) (i p : ℕ) (s : Slab) (fds : List ℕ) (buffer : WBuffer) (len : ℕ)
      (rt : Runtime F)
      → length fds < 2 ^ 16
      → Polling extra i p s rt
      → Ensures (Polling extra i p s) (send_multiple_write fds buffer len rt)
  unfolding send_multiple_write info_payload
  send_multiple_write-Polling extra i p s fds buffer len rt few v =
      Ensures-bind (push_writes-entries buffer len (info_payload rt.current) fds 0 rt) λ pushed h.
        rw (h.1, Polling-index extra i p s rt v, mod-eq_of_lt {n = length fds} {m = 2 ^ 16} few)
          (Ensures-bind {P = Polling extra i p s}
            (Ensures-bind
              (queue-Polling extra i p s rt (λ t. add_rc t (length fds)) (length fds)
                (entries buffer len (info_payload rt.current) fds 0) rt.current
                (λ t. add_rc-Adds (length fds) t few)
                (λ j.
                  refs-entries j buffer len (info_payload rt.current) fds 0
                    (omega (arith, v.current, Polling-lt extra i p s rt v))
                  ∙ ap (λ n. if n == j then length fds else 0) v.current)
                v.current v)
              λ st w. returns (
                rebuffer
                  {rt = record rt {
                    store = st;
                    pending = rt.pending ++ entries buffer len (info_payload rt.current) fds 0;
                  }}
                  h.0 rt.buf_ring w))
            λ counted w.
              Ensures-bind (drop-Defined counted.buffer buffer)
                λ b d. returns (rebuffer {rt = counted} b counted.buf_ring w))
