-- ===== src/Store/Durable.antt =====
-- What the disk holds after a history of writes, and what a restart reads back.
use dsh_yawn.Base.{◌≡◌, refl, ap, sym, ◌∙◌, String, true, Option, some, List, [], ◌∷◌, map, arith}
use dsh_yawn.Dict.{Dict, put, delete}
use dsh_yawn.Exec.{Error, Result, ok, err}
use dsh_yawn.Records.{SessionRecord, base_of}
use dsh_yawn.Store.{
  StateFile, SessionStore, StoredFile, parsed, fresh, backfill_start_times, initialize, set_record,
  delete_record, set_pending_profile, set_disabled_mcp_servers,
}

-- The calls that write.
pub data Write : Type 0 where
  record_set : SessionRecord → Write
  record_deleted : String → Write
  profile_picked : String → String → Write
  servers_picked : String → List String → Write

-- What the calls do to the state in memory, whatever becomes of the disk.
abbrev pub in_memory : StateFile → Write → StateFile
in_memory f (record_set r) =
    let id = (base_of r).session_id in
    record f { sessions = put f.sessions id r; pending_profiles = delete f.pending_profiles id }
in_memory f (record_deleted id) = record f { sessions = delete f.sessions id }
in_memory f (profile_picked id name) = record f {
  pending_profiles = put f.pending_profiles id name;
}
in_memory f (servers_picked id names) = record f {
  disabled_mcp_servers = put f.disabled_mcp_servers id names;
}

abbrev pub in_memory_all : StateFile → List Write → StateFile
in_memory_all f [] = f
in_memory_all f (w ∷ ws) = in_memory_all (in_memory f w) ws

module _ {E : Type 0} (write : E → Option Error × E) where
  unfoldable pub step : SessionStore → Write → E → Result (Unit {0}) × SessionStore × E
  unfolding set_record delete_record set_pending_profile set_disabled_mcp_servers
  step s (record_set r) e = set_record write s r e
  step s (record_deleted id) e = delete_record write s id e
  step s (profile_picked id name) e = set_pending_profile write s id name e
  step s (servers_picked id names) e = set_disabled_mcp_servers write s id names e

  -- A history of writes, with the answer of each.
  pub run : SessionStore → List Write → E → List (Result (Unit {0})) × SessionStore × E
  run s [] e = ([], s, e)
  run s (w ∷ ws) e =
      let (r, s', e') = step s w e in let (rs, s'', e'') = run s' ws e' in (r ∷ rs, s'', e'')

  step-rejected :
      (s : SessionStore) (w : Write) (e : E) (x : Error)
      → s.write_chain ≡ err x
      → step s w e ≡ (err x, record s { state = in_memory s.state w }, e)
  unfolding step
  step-rejected s (record_set r) e x h = ground (arith, h)
  step-rejected s (record_deleted id) e x h = ground (arith, h)
  step-rejected s (profile_picked id name) e x h = ground (arith, h)
  step-rejected s (servers_picked id names) e x h = ground (arith, h)

  run-rejected :
      (s : SessionStore) (ws : List Write) (e : E) (x : Error)
      → s.write_chain ≡ err x
      → run s ws e ≡ (map (λ _. err x) ws, record s { state = in_memory_all s.state ws }, e)
  unfolding run
  run-rejected s [] e x h = refl
  run-rejected s (w ∷ ws) e x h =
      rw (step-rejected s w e x h)
        (rw (run-rejected (record s { state = in_memory s.state w }) ws e x h))

  -- The call whose write the file system fails.
  step-fails :
      (s : SessionStore) (w : Write) (e e' : E) (x : Error)
      → s.write_chain ≡ ok tt
      → write e ≡ (some x, e')
      → step s w e ≡ (err x, record s { state = in_memory s.state w; write_chain = err x }, e')
  unfolding step
  step-fails s (record_set r) e e' x h f = ground (arith, h, f)
  step-fails s (record_deleted id) e e' x h f = ground (arith, h, f)
  step-fails s (profile_picked id name) e e' x h f = ground (arith, h, f)
  step-fails s (servers_picked id names) e e' x h f = ground (arith, h, f)

  -- Once the file system fails one write of a store that wrote until then, the store never reaches the
  -- disk again: that call and every later one answer that error and change the state in memory, the file
  -- stays as it was, and the file system is not asked again, even if it has recovered.
  pub run-fails :
      (s : SessionStore) (w : Write) (ws : List Write) (e e' : E) (x : Error)
      → s.write_chain ≡ ok tt
      → write e ≡ (some x, e')
      → run s (w ∷ ws) e ≡ (
        map (λ _. err x) (w ∷ ws),
        record s { state = in_memory_all s.state (w ∷ ws); write_chain = err x },
        e',
      )
  unfolding run
  run-fails s w ws e e' x h f = rw (step-fails s w e e' x h f) (
      rw (run-rejected (record s { state = in_memory s.state w; write_chain = err x }) ws e' x refl)
        refl)

  -- A call that answers without an error has written the whole state as it now stands in memory.
  pub step-durable :
      (s : SessionStore) (w : Write) (e : E)
      → (step s w e).0 ≡ ok tt
      → ((step s w e).1.state ≡ in_memory s.state w)
        × ((step s w e).1.disk ≡ some (in_memory s.state w))
        × ((step s w e).1.write_chain ≡ ok tt)
  unfolding step
  step-durable s (record_set r) e h = ground arith
  step-durable s (record_deleted id) e h = ground arith
  step-durable s (profile_picked id name) e h = ground arith
  step-durable s (servers_picked id names) e h = ground arith

-- The file as this host writes it: version 1, every field present, every record with a start time.
abbrev pub printed : StateFile → StoredFile
printed f = record {
  version = some 1;
  sessions = some (map (λ e. (e.0, record { stored = e.1; has_created_at = true })) f.sessions);
  pending_profiles = some f.pending_profiles;
  disabled_mcp_servers = some f.disabled_mcp_servers;
}

sessions_back :
    (m : Dict SessionRecord)
    → backfill_start_times (map (λ e. (e.0, record { stored = e.1; has_created_at = true })) m) ≡ m
unfolding backfill_start_times
sessions_back [] = refl
sessions_back ((id, r) ∷ m) = ap (◌∷◌ (id, r)) (sessions_back m)

pub initialize-printed :
    (s : SessionStore) (f : StateFile)
    → initialize s (parsed (printed f)) ≡ (ok tt, record s { state = f })
unfolding initialize
initialize-printed s f =
    ap (λ m. (ok tt, record s { state = record f { sessions = m } })) (sessions_back f.sessions)

-- After a call that answered without an error, a host that starts on the file comes up with the
-- state that the call left in memory.
pub initialize-step :
    {E : Type 0} (write : E → Option Error × E) (s : SessionStore) (w : Write) (e : E)
    (disk : Option StateFile)
    → (step write s w e).0 ≡ ok tt
    → (f : StateFile) × ((step write s w e).1.disk ≡ some f)
      × ((initialize (fresh disk) (parsed (printed f))).0 ≡ ok tt)
      × ((initialize (fresh disk) (parsed (printed f))).1.state ≡ (step write s w e).1.state)
initialize-step write s w e disk h =
    let d = step-durable write s w e h in
    let back = initialize-printed (fresh disk) (in_memory s.state w) in
    (in_memory s.state w, d.1, ap (λ r. r.0) back, ap (λ r. r.1.state) back ∙ sym d.0)
