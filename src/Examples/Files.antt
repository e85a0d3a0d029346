-- ===== src/Examples/Files.antt =====
-- Runs of what is read, written and kept: queue, store, registry, profile choice and checkpoint output.
use dsh_yawn.Base.{
  ℕ, ◌+◌, ◌≡◌, ◌≤◌, ◌⊎◌, refl, true, false, Option, none, some, List, [], ◌∷◌, ◌++◌, ◌↔◌,
}
use dsh_yawn.Dict.{get, put}
use dsh_yawn.Exec.{Error, failure, Result, ok, err}
use dsh_yawn.Records.{Bytes, SandboxProfile, running}
use dsh_yawn.MessageQueue
use dsh_yawn.MessageQueue.{Call, push, close, next, throw, return, MessageQueue}
use dsh_yawn.MessageQueue.Order.{
  messages, sent, messages-run, asked, answers, waits, OneAtATime, run-settles,
}
use dsh_yawn.Store.{
  SessionStore, StateFile, Loaded, parsed, initialize, set_record, delete_record, persist, and_then,
  written_file, file_after, set_pending_profile, get_record, pending_profile,
}
use dsh_yawn.Store
use dsh_yawn.Store.Durable.{
  Write, record_set, record_deleted, profile_picked, in_memory, in_memory_all, printed, run-fails,
  step-durable, initialize-step,
}
use dsh_yawn.Store.Durable
use dsh_yawn.Registry.{
  SandboxBackend, Registry, update, build, rebuild, swap_in, keep_or_build, add_backend, unchanged,
  same_profile, or_create,
}
use dsh_yawn.Checkpoint.{
  stdout, exited, drain, newline, is_commit, has_bundle_header, parse_save_output, GitCheckpoint,
  cut, first_line, second_line, check_save, is_hex,
}
use dsh_yawn.Checkpoint.Output.{IsLine, parse_save_output-eq-ok}
use dsh_yawn.Checkpoint.Script
use dsh_yawn.Checkpoint.Script.{IsClean, HasExit, drain_iff}
use dsh_yawn.Examples.{registry, profile, backend, box, store_of}

-- A pull before the push, a push before the pull, a close and a late push.
abbrev calls : List (Call ℕ)
calls = next 1 ∷ push 10 ∷ push 20 ∷ next 2 ∷ close ∷ push 30 ∷ []

messages-run_example :
    messages (MessageQueue.run MessageQueue.empty calls).1
      ++ (MessageQueue.run MessageQueue.empty calls).0.buffered
    ≡ sent calls
messages-run_example = messages-run calls

alone : OneAtATime MessageQueue.empty calls
unfolding MessageQueue.step MessageQueue.empty MessageQueue.enqueue MessageQueue.dequeue
    MessageQueue.pull MessageQueue.finish
alone = (refl, (tt, (tt, (refl, (tt, (tt, tt))))))

run-settles_example :
    (asked 2 calls
      ≡ answers 2 (MessageQueue.run MessageQueue.empty calls).1
        + waits 2 (MessageQueue.run MessageQueue.empty calls).0.waiting)
    × ((((MessageQueue.run MessageQueue.empty calls).0.waiting ≡ none)
          ⊎ ((MessageQueue.run MessageQueue.empty calls).0.ended ≡ false))
        × (((MessageQueue.run MessageQueue.empty calls).0.waiting ≡ none)
            ⊎ ((MessageQueue.run MessageQueue.empty calls).0.buffered ≡ [])))
run-settles_example = run-settles calls 2 alone

-- A disk that takes every write.
disk_ok : ℕ → Option Error × ℕ
disk_ok e = (none, e + 1)

abbrev store : SessionStore
store = store_of (running box)

-- A disk that takes one write in two, this one not.
abbrev full : ℕ → Option Error × ℕ
full ℕ.zero = (some (failure "no space"), 1)
full (ℕ.suc n) = (none, n)

run-fails_example :
    Durable.run full store (record_deleted "s" ∷ profile_picked "t" "dev" ∷ []) 0 ≡ (
      err (failure "no space") ∷ err (failure "no space") ∷ [],
      record store {
        state = in_memory_all store.state (record_deleted "s" ∷ profile_picked "t" "dev" ∷ []);
        write_chain = err (failure "no space");
      },
      1,
    )
run-fails_example =
    run-fails full store (record_deleted "s") (profile_picked "t" "dev" ∷ []) 0 1
      (failure "no space") refl refl

deleted-ok : (Durable.step disk_ok store (record_deleted "s") 1).0 ≡ ok tt
unfolding Durable.step disk_ok delete_record persist and_then written_file file_after
deleted-ok = refl

initialize-step_example :
    (f : StateFile) × ((Durable.step disk_ok store (record_deleted "s") 1).1.disk ≡ some f)
    × ((initialize (Store.fresh none) (parsed (printed f))).0 ≡ ok tt)
    × ((initialize (Store.fresh none) (parsed (printed f))).1.state
        ≡ (Durable.step disk_ok store (record_deleted "s") 1).1.state)
initialize-step_example = initialize-step disk_ok store (record_deleted "s") 1 none deleted-ok

-- A settings change on a registry whose backends can always be built.
abbrev create : SandboxProfile → Result (SandboxBackend ℕ)
create p = ok backend

abbrev bare : Registry ℕ
bare = record { profiles = []; backends = [] }

kept : update create [] registry (("dev", profile) ∷ []) ≡ ok registry
unfolding update rebuild swap_in keep_or_build add_backend unchanged same_profile build or_create
    get put
kept = refl

built : update create [] bare (("dev", profile) ∷ []) ≡ ok registry
unfolding update rebuild swap_in keep_or_build add_backend unchanged same_profile build or_create
    get put
built = refl

abbrev copies : ℕ → ℕ → Bytes
copies ℕ.zero b = []
copies (ℕ.suc n) b = b ∷ copies n b

abbrev commit : Bytes
commit = copies 40 b'a'

abbrev saved : GitCheckpoint
saved = record { commit = commit; branch = some (b'm' ∷ []); bundle = [] }

-- A decoder for the ASCII that the scripts print here.
abbrev ascii : Bytes → Bytes
ascii bytes = bytes

main_output : parse_save_output ascii (b'm' ∷ newline ∷ (commit ++ newline ∷ [])) ≡ ok saved
unfolding parse_save_output cut first_line second_line check_save is_commit is_hex has_bundle_header
main_output = refl

parse_save_output-eq-ok_example :
    (branch : Bytes) × (line : Bytes) × (b'm' ∷ newline ∷ (commit ++ newline ∷ [])
      ≡ branch ++ newline ∷ (line ++ newline ∷ []))
    × IsLine branch
    × IsLine line
    × (b'm' ∷ [] ≡ ascii branch)
    × (commit ≡ ascii line)
    × (is_commit commit ≡ true)
    × ((saved.bundle ≡ []) ⊎ (has_bundle_header saved.bundle ≡ true))
parse_save_output-eq-ok_example =
    parse_save_output-eq-ok ascii (b'm' ∷ newline ∷ (commit ++ newline ∷ [])) saved main_output

drain_iff_example :
    (drain 8 [] false (stdout (1 ∷ []) ∷ stdout (2 ∷ 3 ∷ []) ∷ exited 0 ∷ []) ≡ ok (1 ∷ 2 ∷ 3 ∷ []))
    ↔ ((1 ∷ 2 ∷ 3 ∷ [] ≡ Script.printed (stdout (1 ∷ []) ∷ stdout (2 ∷ 3 ∷ []) ∷ exited 0 ∷ []))
        × IsClean (stdout (1 ∷ []) ∷ stdout (2 ∷ 3 ∷ []) ∷ exited 0 ∷ [])
        × HasExit (stdout (1 ∷ []) ∷ stdout (2 ∷ 3 ∷ []) ∷ exited 0 ∷ [])
        × (3 ≤ 8))
drain_iff_example =
    drain_iff 8 (stdout (1 ∷ []) ∷ stdout (2 ∷ 3 ∷ []) ∷ exited 0 ∷ []) (1 ∷ 2 ∷ 3 ∷ [])
