-- ===== src/Tests/Tasks.antt =====
-- Headers, their numbers and counts, and `user_data`.
use onlyio.Base.{ℕ, ◌≡◌, refl, [], ◌∷◌, none, some, ok, undefined, arith}
use onlyio.Base.Int.{pos}
use onlyio.UserData.{UserDataPayload, TaskInfo, info_payload}
use onlyio.UserData.RoundTrip.{InRange}
use onlyio.Task.{RawTask, normal, multiple, expired, error, evaluate}
use onlyio.Task.Store.{Store, update, write_cell, freed}
use onlyio.Task.Release.{releases, releases_lem}

abbrev pub task : RawTask ℕ
task = record { future = 7; alloc_size = 64; ref_counter = 2; syscall_nb = 3; slab_idx = some 0 }

abbrev pub store : Store ℕ
store = record {
  cells = update (λ q. none) 4096 (some task);
  free_list = [];
  dropped = [];
  stale_reads = [];
}

abbrev payload : UserDataPayload
payload = record { task_idx = 5; response_gen = 2; syscall_nb = 0x8003 }

abbrev info : TaskInfo
info = record {
  tag = record { task_idx = 5; syscall_nb = 0x8003 };
  result = pos 0;
  flags = 0;
  response_gen = 2;
}

payload-InRange : InRange payload
payload-InRange = record { idx_in = omega arith; gen_in = omega arith; nb_in = omega arith }

abbrev stored : ℕ
stored = 3

abbrev incoming : ℕ
incoming = 0x8003

info-InRange : InRange (info_payload info)
unfolding info_payload
info-InRange = payload-InRange

answers :
    (evaluate 3 3 ≡ normal)
    × (evaluate 0x8003 0x8003 ≡ multiple)
    × (evaluate 3 0x8002 ≡ expired)
    × (evaluate 3 0x8003 ≡ error)
unfolding evaluate
answers = (refl, refl, refl, refl)

releases_lem_example :
    (releases 2 4096 store ≡ ok (freed 4096 task store))
    × ((freed 4096 task store).stale_reads ≡ 4096 ∷ [])
    × (releases 1 4096 store ≡ ok (write_cell store 4096 (some (record task { ref_counter = 1 }))))
    × (releases 3 4096 store ≡ undefined)
releases_lem_example = releases_lem 1 4096 store task refl (omega arith)
