-- ===== src/Examples/Boots.antt =====
-- Boots of the example host on a state file with two sessions: `s` runs, and the sandbox of `t` was to be
-- kept until time 5. The clock shows 10 and later.
use dsh_yawn.Base.{ℕ, ◌+◌, ◌≡◌, refl, subst, inl, inr, none, some, [], ◌∷◌, arith, eq_iff, All}
use dsh_yawn.Dict.{get}
use dsh_yawn.Exec.{ok}
use dsh_yawn.Records.{RunningRecord, running, hibernated}
use dsh_yawn.Store.{StateFile, parsed, fresh, all_records}
use dsh_yawn.Store.Durable.{printed, initialize-printed}
use dsh_yawn.Registry.{find_backend, owner}
use dsh_yawn.World.{World}
use dsh_yawn.Lifecycle.{Deps}
use dsh_yawn.Lifecycle.Machine.{load, boot}
use dsh_yawn.Lifecycle.Isolation.{KeyedRecords, holding}
use dsh_yawn.Lifecycle.Forgotten.{Forgotten}
use dsh_yawn.Lifecycle.Recovery.{IsSpared, boot-holding}
use dsh_yawn.Lifecycle.Recovery.Answered.{IsAnswering, IsServed}
use dsh_yawn.Lifecycle.Recovery.Returned.{boot-Forgotten}
use dsh_yawn.Examples.{host, deps, registry, backend, base, box}

abbrev late : Deps ℕ
late = record deps { host = record host { now = λ e. e + 10 } }

abbrev sleeper : RunningRecord
sleeper = record box { base = record base { session_id = "t" } }

abbrev file : StateFile
file = record {
  sessions = ("s", running box) ∷ ("t", hibernated sleeper (some 5)) ∷ [];
  pending_profiles = [];
  disabled_mcp_servers = [];
}

abbrev down : World ℕ
down = record {
  store = fresh none;
  clients = [];
  bundles = [];
  archives = [];
  warnings = [];
  env = 0;
}

abbrev ready : World ℕ
ready = record down { store = record down.store { state = file } }

loaded : load (parsed (printed file)) down ≡ (ok tt, ready)
unfolding load
loaded = rw (initialize-printed down.store file) refl

loaded-KeyedRecords : KeyedRecords (load (parsed (printed file)) down).1.store.state.sessions
unfolding KeyedRecords get
loaded-KeyedRecords = rw loaded (λ j r e. ground (arith, eq_iff "s" j, eq_iff "t" j))

loaded-IsSpared : All (IsSpared late "s") (all_records (load (parsed (printed file)) down).1.store)
unfolding all_records
loaded-IsSpared = rw loaded (inl (inr tt), (inl (inl (ground (arith, eq_iff "t" "s"))), tt))

loaded-sleeper :
    get (load (parsed (printed file)) down).1.store.state.sessions "t"
    ≡ some (hibernated sleeper (some 5))
unfolding get
loaded-sleeper = rw loaded refl

backend-IsAnswering : IsAnswering backend
backend-IsAnswering = record { destroyed = λ ref e. tt; expiring = λ ref deadline e. tt }

sleeper-owner : find_backend registry (hibernated sleeper (some 5)) ≡ some backend
unfolding find_backend owner get
sleeper-owner = refl

late-IsServed : IsServed late
unfolding find_backend owner get
late-IsServed = record {
  writes = λ e. refl;
  files = λ e. refl;
  backends = λ r b found.
      let same : backend ≡ b = ground (arith, found) in subst IsAnswering same backend-IsAnswering;
  hooked = tt;
}

boot-holding_example :
    holding (boot late (parsed (printed file)) down).1 "s"
    ≡ holding (load (parsed (printed file)) down).1 "s"
boot-holding_example =
    boot-holding late (parsed (printed file)) down "s" loaded-KeyedRecords loaded-IsSpared

boot-Forgotten_example :
    ((boot late (parsed (printed file)) down).0 ≡ ok tt)
    × Forgotten "t" (boot late (parsed (printed file)) down).1
unfolding fresh
boot-Forgotten_example =
    boot-Forgotten late late-IsServed (parsed (printed file)) down "t" 10
      (hibernated sleeper (some 5)) backend (rw loaded refl) (rw loaded refl) loaded-KeyedRecords
      (λ e. omega arith) loaded-sleeper sleeper-owner (omega arith)
