-- ===== src/Lifecycle/Isolation.antt =====
-- One session's verbs and the records, files and cached runners of the others.
use dsh_yawn.Base.{◌≡◌, refl, String, Option, none, some, eq_iff, arith}
use dsh_yawn.Dict.{Dict, get, put, delete, get-put, get-delete, get-put_ne, get-delete_ne}
use dsh_yawn.Exec.{Error, Exec}
use dsh_yawn.Exec.Hoare.{Keeps, Ensures}
use dsh_yawn.Records.{Bytes, SessionRecord, base_of}
use dsh_yawn.Store.{get_record}
use dsh_yawn.Store.Memory.{set_record-state, delete_record-state}
use dsh_yawn.World.{Client, Host, World, on_store, change_files, written}
use dsh_yawn.World.Rules.{IsInner}
use dsh_yawn.Lifecycle.{Deps, store_set, store_delete}
use dsh_yawn.Lifecycle.Frame.{IsLocal}
use dsh_yawn.Lifecycle.Frame.Writes.{IsWritable, IsWritable-IsLocal}

-- Every stored record names the session that it is stored for.
unfoldable pub KeyedRecords : Dict SessionRecord → Type 0
KeyedRecords m = (j : String) (r : SessionRecord) → get m j ≡ some r → (base_of r).session_id ≡ j

-- Whatever the host keeps for one session.
pub record Holding : Type 0 where
  pub record_of : Option SessionRecord
  pub pending_of : Option String
  pub bundle_of : Option Bytes
  pub archive_of : Option Bytes
  pub client_of : Option Client

abbrev pub holding : {E : Type 0} → World E → String → Holding
holding w j = record {
  record_of = get w.store.state.sessions j;
  pending_of = get w.store.state.pending_profiles j;
  bundle_of = get w.bundles j;
  archive_of = get w.archives j;
  client_of = get w.clients j;
}

module _ {E : Type 0} (start : World E) (id : String) where
  pub record Apart (w : World E) : Type 0 where
    pub keyed : KeyedRecords w.store.state.sessions
    pub others : (j : String) → ¬ (id ≡ j) → holding w j ≡ holding start j

  Apart-inner : IsInner Apart id
  Apart-inner = record {
    env_free = λ w e p. record { keyed = p.keyed; others = p.others };
    warnings_free = λ w m p. record { keyed = p.keyed; others = p.others };
    cached = λ w c p. record {
      keyed = p.keyed;
      others = λ j ne. rw (get-put_ne w.clients id j c ne) (p.others j ne);
    };
    evicted = λ w p. record {
      keyed = p.keyed;
      others = λ j ne. rw (get-delete_ne w.clients id j ne) (p.others j ne);
    };
  }

  pub KeyedRecords-put :
      (m : Dict SessionRecord) (r : SessionRecord)
      → KeyedRecords m
      → KeyedRecords (put m (base_of r).session_id r)
  unfolding KeyedRecords
  KeyedRecords-put m r k j x e =
      ground (arith, get-put m (base_of r).session_id j r, eq_iff (base_of r).session_id j, k j x)

  KeyedRecords-delete :
      (m : Dict SessionRecord) (i : String) → KeyedRecords m → KeyedRecords (delete m i)
  unfolding KeyedRecords
  KeyedRecords-delete m i k j x e = ground (arith, get-delete m i j, k j x)

  set-Apart :
      (d : Deps E) (r : SessionRecord) → (base_of r).session_id ≡ id → Keeps Apart (store_set d r)
  unfolding store_set on_store
  set-Apart d r own = record {
    keeps = λ w p. record {
      keyed = rw (set_record-state d.host.write w.store r w.env) (KeyedRecords-put _ r p.keyed);
      others = λ j ne.
          rw
            (
              set_record-state d.host.write w.store r w.env,
              own,
              get-put_ne w.store.state.sessions id j r ne,
              get-delete_ne w.store.state.pending_profiles id j ne,
            )
            (p.others j ne);
    };
  }

  unset-Apart : (d : Deps E) → Keeps Apart (store_delete d id)
  unfolding store_delete on_store
  unset-Apart d = record {
    keeps = λ w p. record {
      keyed =
          rw (delete_record-state d.host.write w.store id w.env) (KeyedRecords-delete _ id p.keyed);
      others = λ j ne.
          rw
            (
              delete_record-state d.host.write w.store id w.env,
              get-delete_ne w.store.state.sessions id j ne,
            )
            (p.others j ne);
    };
  }

  written-Apart :
      (w w' : World E) (r : Option Error × E) → Apart w → Apart w' → Apart (written w r w').1
  unfolding written
  written-Apart w w' (none, e) p p' = record { keyed = p'.keyed; others = p'.others }
  written-Apart w w' (some x, e) p p' = record { keyed = p.keyed; others = p.others }

  files-Apart :
      (h : Host E) (f : World E → World E)
      → ((w : World E) → Apart w → Apart (f w))
      → Keeps Apart (change_files h f)
  unfolding change_files
  files-Apart h f k = record { keeps = λ w p. written-Apart w (f w) (h.write_file w.env) p (k w p) }

  Apart-IsWritable : (d : Deps E) → IsWritable d Apart id
  unfolding get_record KeyedRecords
  Apart-IsWritable d = record {
    inner = Apart-inner;
    owned = λ w r p e. p.keyed id r e;
    set = set-Apart d;
    unset = unset-Apart d;
    bundle_put = λ b. files-Apart d.host _ (λ w p. record {
      keyed = p.keyed;
      others = λ j ne. rw (get-put_ne w.bundles id j b ne) (p.others j ne);
    });
    bundle_gone = files-Apart d.host _ (λ w p. record {
      keyed = p.keyed;
      others = λ j ne. rw (get-delete_ne w.bundles id j ne) (p.others j ne);
    });
    archive_put = λ b. files-Apart d.host _ (λ w p. record {
      keyed = p.keyed;
      others = λ j ne. rw (get-put_ne w.archives id j b ne) (p.others j ne);
    });
    archive_gone = files-Apart d.host _ (λ w p. record {
      keyed = p.keyed;
      others = λ j ne. rw (get-delete_ne w.archives id j ne) (p.others j ne);
    });
  }

  pub Apart-IsLocal : (d : Deps E) → IsLocal d Apart id
  Apart-IsLocal d = IsWritable-IsLocal (Apart-IsWritable d)

-- The condition that the records are keyed, on its own.
abbrev pub Keyed : {E : Type 0} → World E → Type 0
Keyed w = KeyedRecords w.store.state.sessions

pub kept-Keyed :
    {E A : Type 0} {m : Exec (World E) A} {id : String}
    → ((start : World E) → Keeps (Apart start id) m)
    → Keeps Keyed m
kept-Keyed k = record {
  keeps = λ w p. ((k w).keeps w (record { keyed = p; others = λ j ne. refl })).keyed;
}

abbrev pub Own : String → Option SessionRecord → Type 0
Own id none = Unit
Own id (some r) = (base_of r).session_id ≡ id

module _ {E : Type 0} where
  -- The record that the store holds for the session is `found`, and it names the session.
  abbrev pub Stored : String → Option SessionRecord → World E → Type 0
  Stored id found w = KeyedRecords w.store.state.sessions × get w.store.state.sessions id ≡ found

  pub Stored-Own :
      (id : String) (found : Option SessionRecord) (w : World E) → Stored id found w → Own id found
  unfolding KeyedRecords
  Stored-Own id none w p = tt
  Stored-Own id (some r) w p = p.0 id r p.1

  pub Ensures-Own :
      {A : Type 0} (id : String) (found : Option SessionRecord) {m : Exec (World E) A}
      {Q : A → World E → Type 0}
      → (Own id found → Ensures (Stored id found) m Q)
      → Ensures (Stored id found) m Q
  Ensures-Own id found k = record { ensures = λ w p. (k (Stored-Own id found w p)).ensures w p }
