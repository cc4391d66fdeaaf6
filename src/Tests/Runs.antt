-- ===== src/Tests/Runs.antt =====
-- A runtime with one task, in slab slot 0 and at the address 4096, which waits for call 3. Its future
-- counts its polls.
use onlyio.Base.{
  ℕ, ◌+◌, ◌-◌, ◌*◌, ◌/◌, ◌%◌, ◌^◌, ◌<◌, ◌≡◌, refl, inl, Bool, true, [], ◌∷◌, Outcome, ok, arith,
  if◌then◌else◌, ltb, ◌==◌, undefined, some,
}
use onlyio.Base.Int.{pos}
use onlyio.Sqe.{read, write_fixed}
use onlyio.UserData.{Waker, TaskInfo, CqeEntry, from_entry, set_current_task_multiple, info_payload}
use onlyio.UserData.RoundTrip.{InRange}
use onlyio.Task.{normal, multiple, error, expired, evaluate_syscall_nb}
use onlyio.Task.Store.{write_cell, freed}
use onlyio.Runtime.Wakers.{drop_waker-undefined}
use onlyio.Slab
use onlyio.Slab.{Slab}
use onlyio.Runtime.{Runtime, drop_waker, send, send_commit_write}
use onlyio.Runtime.Send.{
  InSync, counted, queued, completed, send-Answers, send_commit_write-Answers,
}
use onlyio.Runtime.Dispatch.{handle_cqe_entry, release_handle}
use onlyio.Runtime.Handles.{settled}
use onlyio.Runtime.Completion.{started, handle-Settles, handle-expired}
use onlyio.Tests.Tasks.{task, store}

-- What CURRENT_TASK holds during call `nb`
abbrev pub at_call : ℕ → TaskInfo
at_call nb = record {
  tag = record { task_idx = 0; syscall_nb = nb };
  result = pos 12;
  flags = 0;
  response_gen = 0;
}

abbrev pub rt : Runtime ℕ
rt = record {
  tasks = record { slots = 4096 ∷ []; head = 1; len = 1; task_count = 1 };
  store = store;
  buffer = record { base = 0x10000; read_count = 2; write_free = 3 ∷ []; write_rc = 1 ∷ 0 ∷ [] };
  buf_ring = record { entries = []; tail = 0 };
  pending = [];
  current = at_call 3;
  wake_list = [];
}

abbrev pub count_poll : ℕ → Runtime ℕ → Outcome (ℕ × Runtime ℕ)
count_poll n r = ok (n + 1, r)

-- Bit 1 of the flags
abbrev pub more : ℕ → Bool
more flags = flags / 2 % 2 == 1

abbrev entry : ℕ → CqeEntry
entry nb = record { user_data = nb * 2 ^ 48; result = pos 12; flags = 0 }

pub indexed : Slab.index rt.tasks 0 ≡ ok 4096
unfolding Slab.index
indexed = refl

pub in_range : InRange (info_payload (at_call 3))
unfolding info_payload
in_range = record { idx_in = omega arith; gen_in = omega arith; nb_in = omega arith }

pub in_sync : InSync rt 4096 task
in_sync = record {
  indexed = indexed;
  live = refl;
  room = omega arith;
  same = refl;
  ranged = in_range;
}

send-Answers_example :
    (u : ℕ) × (send (read 5 4096 0) rt ≡ ok (queued rt 4096 (counted task) (read 5 4096 0) u))
    × (evaluate_syscall_nb (counted task) (completed u (pos 12) 0).tag.syscall_nb
        ≡ (if ltb 3 0x8000 then normal else multiple))
send-Answers_example = send-Answers (read 5 4096 0) rt 4096 task (pos 12) 0 in_sync

send_commit_write-Answers_example :
    (u : ℕ) × (send_commit_write 0x11000 5 12 1 rt
      ≡ ok (
          queued
            (record rt { current = set_current_task_multiple true rt.current })
            4096
            (counted task)
            (write_fixed 5 0x11000 12 1)
            u))
    × (evaluate_syscall_nb (counted task) (completed u (pos 12) 0).tag.syscall_nb
        ≡ (if ltb 3 0x8000 then error else multiple))
send_commit_write-Answers_example =
    send_commit_write-Answers 0x11000 5 12 1 rt 4096 task (pos 12) 0 in_sync

indexed_entry :
    (nb : ℕ) → nb < 2 ^ 16 → Slab.index rt.tasks (from_entry (entry nb)).tag.task_idx ≡ ok 4096
unfolding from_entry
indexed_entry nb h = rw (idx nb) indexed
  where
    idx : (nb : ℕ) → nb * 2 ^ 48 % 2 ^ 32 ≡ 0
    idx nb = omega arith

answers :
    (evaluate_syscall_nb task (from_entry (entry 2)).tag.syscall_nb ≡ expired)
    × (evaluate_syscall_nb task (from_entry (entry 3)).tag.syscall_nb ≡ normal)
    × (evaluate_syscall_nb task (from_entry (entry 0x8003)).tag.syscall_nb ≡ error)
unfolding from_entry evaluate_syscall_nb
answers = (refl, refl, refl)

in_word : (from_entry (entry 3)).tag.syscall_nb < 2 ^ 16
unfolding from_entry
in_word = omega arith

abbrev after : Runtime ℕ
after =
    started count_poll more (entry 3) rt 4096 task (indexed_entry 3 (omega arith)) refl
      (omega arith) (omega arith) normal

handle-Settles_example :
    handle_cqe_entry count_poll more (entry 3) rt
    ≡ ok (
        settled 4096
          (if more 0 then 2 + 0 else 2 + 0 - 1)
          8
          (record task { ref_counter = 3; syscall_nb = 4 })
          after)
handle-Settles_example =
    handle-Settles count_poll more (entry 3) rt 4096 task (indexed_entry 3 (omega arith)) refl
      (omega arith) (omega arith) normal 8 after (record task { ref_counter = 3; syscall_nb = 4 }) 0
      (inl refl) (omega arith) in_word answers.1 refl refl refl

handle-expired_example :
    handle_cqe_entry count_poll more (entry 2) rt
    ≡ (if more 0 then ok rt else release_handle 4096 rt)
handle-expired_example =
    handle-expired count_poll more (entry 2) rt 4096 task (indexed_entry 2 (omega arith)) refl
      (omega arith) (omega arith) answers.0

-- The task with one reference
abbrev lone : Runtime ℕ
lone = record rt { store = write_cell rt.store 4096 (some (record task { ref_counter = 1 })) }

abbrev waker : Waker
waker = record { payload = record { task_idx = 0; response_gen = 0; syscall_nb = 3 } }

same_task : (from_entry (entry 3)).tag.task_idx ≡ 0
unfolding from_entry
same_task = refl

drop_waker-undefined_example :
    (drop_waker waker lone
      ≡ ok (record lone { store = freed 4096 (record task { ref_counter = 1 }) lone.store }))
    × (handle_cqe_entry count_poll more
          (entry 3)
          (record lone { store = freed 4096 (record task { ref_counter = 1 }) lone.store })
        ≡ undefined)
drop_waker-undefined_example =
    drop_waker-undefined count_poll more waker 4096 (record task { ref_counter = 1 }) (entry 3) lone
      indexed refl refl same_task
