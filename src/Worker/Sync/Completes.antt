-- ===== src/Worker/Sync/Completes.antt =====
-- What a transaction that reports success has done.
use serviq.Common.{
  ℕ, ◌≡◌, ◌≢◌, inl, inr, refl, String, Option, none, some, true, false, List, [], ◌∷◌, arith, ltb,
  str_eq, find_where, update_where, Bool-cases, Option-cases,
}
use serviq.Worker.Sync.{
  Db, Source, SourceStatus, Document, KnowledgeSyncCommand, success, FetchedContent, is_source,
  is_version, is_handoff, is_disabled, load_source, document_by_version, parse_event_exists,
  completed_handoff_exists, new_document, new_event, owns_version, synced, hand_off,
  persist_document, persist_locked, persist_document_and_parse_event,
}
use serviq.Worker.Sync.Handoff.{find_append}

-- After a handoff the document is found with its obligation.
hand_off_completes :
    (c : KnowledgeSyncCommand) (s : Source) (f : FetchedContent) (hash : String) (doc now : ℕ)
    (d : Document) (db : Db)
    → document_by_version c db ≡ some d
    → d.id ≡ doc
    → completed_handoff_exists c (hand_off c s f hash doc now db) ≡ true
unfolding hand_off completed_handoff_exists parse_event_exists document_by_version
hand_off_completes c s f hash doc now d db found same =
    elim (Option-cases (find_where (is_handoff c.tenant_id doc) db.events)) [
      | inr (x, old) ↦ ground (arith, found, same, old)
      | inl absent ↦ ground (
        arith,
        found,
        same,
        absent,
        find_append (is_handoff c.tenant_id doc) db.events (new_event c s f hash doc) absent,
      )
    ]

persist_document_completes :
    (c : KnowledgeSyncCommand) (s : Source) (f : FetchedContent) (hash : String) (id now : ℕ)
    (found : Option Document) (db : Db)
    → document_by_version c db ≡ found
    → (persist_document c s f hash id now found db).0 ≡ success
    → completed_handoff_exists c (persist_document c s f hash id now found db).1 ≡ true
unfolding persist_document document_by_version
persist_document_completes c s f hash id now none db found h =
    hand_off_completes c s f hash id now (new_document c s f hash id) _
      (unfold document_by_version in
        find_append (is_version c) db.documents (new_document c s f hash id) found (ground arith))
      refl
persist_document_completes c s f hash id now (some d) db found h =
    elim (Bool-cases (str_eq d.content_hash hash)) [
      | inl same ↦ rw same (hand_off_completes c s f hash d.id now d db found refl)
      | inr other ↦ absurd (cc (rw other at h))
    ]

-- The source that is loaded again after the update of its own version.
load_synced :
    (c : KnowledgeSyncCommand) (now : ℕ) (ss : List Source) (k : Source)
    → find_where (is_source c) ss ≡ some k
    → k.sync_version ≡ c.sync_version
    → find_where (is_source c) (update_where (owns_version c) (synced now) ss) ≡ some (synced now k)
load_synced c now [] k h e = ground arith
load_synced c now (x ∷ ss) k h e = ground (arith, load_synced c now ss k)

load-persist_document :
    (c : KnowledgeSyncCommand) (s k : Source) (f : FetchedContent) (hash : String) (id now : ℕ)
    (found : Option Document) (db : Db)
    → load_source c db ≡ some k
    → k.sync_version ≡ c.sync_version
    → (persist_document c s f hash id now found db).0 ≡ success
    → load_source c (persist_document c s f hash id now found db).1 ≡ some (synced now k)
unfolding persist_document hand_off load_source
load-persist_document c s k f hash id now none db loaded e h =
    load_synced c now db.sources k loaded e
load-persist_document c s k f hash id now (some d) db loaded e h =
    elim (Bool-cases (str_eq d.content_hash hash)) [
      | inl same ↦ rw same (load_synced c now db.sources k loaded e)
      | inr other ↦ absurd (cc (rw other at h))
    ]

-- A persisted handoff is complete, and the source that the lock found is syncing at its version.
pub record IsHandedOff (c : KnowledgeSyncCommand) (now : ℕ) (db db' : Db) (k : Source)
    : Type 0 where
  pub complete : completed_handoff_exists c db' ≡ true
  pub locked : load_source c db ≡ some k
  pub current : k.sync_version ≡ c.sync_version
  pub enabled : is_disabled k.status ≡ false
  pub marked : load_source c db' ≡ some (synced now k)

persist_locked_inv :
    (c : KnowledgeSyncCommand) (s k : Source) (f : FetchedContent) (hash : String) (id now : ℕ)
    (db : Db)
    → (persist_locked c s f hash id now (some k) db).0 ≡ success
    → (is_disabled k.status ≡ false)
      × (k.sync_version ≡ c.sync_version)
      × (persist_locked c s f hash id now (some k) db
          ≡ persist_document c s f hash id now (document_by_version c db) db)
unfolding persist_locked
persist_locked_inv c s k f hash id now db h = elim (Bool-cases (is_disabled k.status)) [
  | inl off ↦ absurd (cc (rw off at h))
  | inr on ↦ elim (Bool-cases (ltb c.sync_version k.sync_version)) [
    | inl old ↦ absurd (cc (rw (on, old) at h))
    | inr fresh ↦ elim (Bool-cases (ltb k.sync_version c.sync_version)) [
      | inl ahead ↦ absurd (cc (rw (on, fresh, ahead) at h))
      | inr reached ↦ (on, ground (arith, fresh, reached), rw (on, fresh, reached))
    ]
  ]
]

persist_locked-none :
    (c : KnowledgeSyncCommand) (s : Source) (f : FetchedContent) (hash : String) (id now : ℕ)
    (db : Db)
    → (persist_locked c s f hash id now none db).0 ≢ success
unfolding persist_locked
persist_locked-none c s f hash id now db h = cc

pub persist_success_inv :
    (c : KnowledgeSyncCommand) (s : Source) (f : FetchedContent) (hash : String) (id now : ℕ)
    (db : Db)
    → (persist_document_and_parse_event c s f hash id now db).0 ≡ success
    → (k : Source) × IsHandedOff c now db
        (persist_document_and_parse_event c s f hash id now db).1
        k
unfolding persist_document_and_parse_event
persist_success_inv c s f hash id now db h = go (load_source c db) refl h
  where
    go :
        (found : Option Source)
        → load_source c db ≡ found
        → (persist_locked c s f hash id now found db).0 ≡ success
        → (k : Source) × IsHandedOff c now db (persist_locked c s f hash id now found db).1 k
    go none e h = absurd (persist_locked-none c s f hash id now db h)
    go (some k) e h =
        let (on, current, run) = persist_locked_inv c s k f hash id now db h in
        let done : (persist_document c s f hash id now (document_by_version c db) db).0 ≡ success =
          rw run at h in
        (
          k,
          record {
            complete = rw run (
                persist_document_completes c s f hash id now (document_by_version c db) db refl
                  done);
            locked = e;
            current = current;
            enabled = on;
            marked = rw run (
                load-persist_document c s k f hash id now (document_by_version c db) db e current
                  done);
          },
        )

-- A persisted version, by the columns of its source before (`k`) and after (`left`).
pub record IsPersisted (c : KnowledgeSyncCommand) (now : ℕ) (db db' : Db) (k left : Source)
    : Type 0 where
  pub complete : completed_handoff_exists c db' ≡ true
  pub locked : load_source c db ≡ some k
  pub enabled : is_disabled k.status ≡ false
  pub current : k.sync_version ≡ c.sync_version
  pub reloaded : load_source c db' ≡ some left
  pub syncing : left.status ≡ SourceStatus.syncing
  pub synced_at : left.last_synced_at ≡ some now
  pub cleared : left.last_error_code ≡ none
  pub same_version : left.sync_version ≡ c.sync_version

-- Where the transaction reports success, the version's document has its parse obligation, and the
-- source, which was enabled and at this version, now has the status syncing, this time as its last
-- sync, no error code and still this version.
pub persist_success :
    (c : KnowledgeSyncCommand) (s : Source) (f : FetchedContent) (hash : String) (id now : ℕ)
    (db : Db)
    → (persist_document_and_parse_event c s f hash id now db).0 ≡ success
    → (k left : Source) × IsPersisted c now db
        (persist_document_and_parse_event c s f hash id now db).1
        k
        left
persist_success c s f hash id now db h =
    let (k, done) = persist_success_inv c s f hash id now db h in
    (
      k,
      synced now k,
      record {
        complete = done.complete;
        locked = done.locked;
        enabled = done.enabled;
        current = done.current;
        reloaded = done.marked;
        syncing = refl;
        synced_at = refl;
        cleared = refl;
        same_version = done.current;
      },
    )
