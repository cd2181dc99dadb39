-- ===== src/Knowledge/Service.antt =====
-- services/api/app/modules/knowledge/service.py. The memberships that decide on a permission are
-- those of Access/Rows. What `validate_upload` says of a file (its size, or that it is refused),
-- the object store, clocks and new ids are arguments; views of rows are not built.
pub mod Charges
pub mod Commits
pub mod Keeping
pub mod Legacy
pub mod Uploads
use serviq.Common.{
  ℕ, ◌+◌, String, Option, none, some, Bool, true, false, not, ◌&&◌, ◌||◌, List, [], ◌∷◌, ◌==◌,
  str_eq, if◌then◌else◌, any, update_where,
}
use serviq.Access.Rows.{Directory}
use serviq.Access.Tenancy.{ResolvedTenantMembership, resolve_tenant_membership}
use serviq.Access.Rows as Access
use serviq.Knowledge.Rows.{
  Db, KnowledgeSource, KnowledgeUploadCleanup, SourceType, SourceStatus, AccessScope, SyncEvent,
  is_disabled,
}
use serviq.Knowledge.Tx.{
  Tx, Error, Result, ok, err, ◌>>=◌, ◌>>◌, pure, gets, modify, raise, raise_if, transaction,
  forbidden, source_not_found, source_disabled, runtime_error,
}
use serviq.Knowledge.Repository.{
  is_source, add_knowledge_source, add_file_knowledge_source, get_knowledge_source_for_update,
  add_outbox_event, bind_upload_reservation_to_cleanup, expire_upload_concurrency_lease_for_cleanup,
  release_upload_reservation,
}
use serviq.Knowledge.Repository.Cleanups.{
  is_prepared, get_upload_cleanup_for_update, add_upload_cleanup_intent,
  mark_upload_cleanup_referenced,
}
use serviq.Knowledge.Quota.{
  ReservationClaim, assert_source_capacity, finalize_file_upload_reservation,
  release_unlinked_reservation,
}
use serviq.Knowledge.Cleanup.{
  raw_key_value, source_persistence_failed, prepared_cleanup_due_at, lift, store,
  arm_upload_cleanup, mark_inline_cleanup_succeeded,
}

abbrev pub manage_permission : String
manage_permission = "knowledge.sources.manage"

abbrev grants_permission : Access.Result (ResolvedTenantMembership × Directory) → Bool
grants_permission (err _) = false
grants_permission (ok (m, _)) = any (str_eq manage_permission) m.permissions

-- Whether `_require_permission` passes.
unfoldable pub is_permitted : Directory → ℕ → ℕ → Bool
is_permitted directory user tenant =
    grants_permission (resolve_tenant_membership user tenant directory)

unfoldable pub require_permission : Directory → ℕ → ℕ → Tx (Unit {0})
require_permission directory user tenant =
    raise_if (not (is_permitted directory user tenant)) forbidden

pub record KnowledgeSourceCreateRequest : Type 0 where
  pub source_type : SourceType
  pub name : String
  pub source_uri : String
  pub access_scope : AccessScope

unfoldable pub create_body :
    Directory → ℕ → ℕ → KnowledgeSourceCreateRequest → ℕ → ℕ → Tx (Unit {0})
create_body directory user t request id now =
    require_permission directory user t
    >> (assert_source_capacity t now >>= λ _.
        add_knowledge_source id t request.source_type request.name request.source_uri
          request.access_scope user now)

-- `create_source`
unfoldable pub create_source :
    Directory → ℕ → ℕ → KnowledgeSourceCreateRequest → ℕ → ℕ → Db → Result (Unit {0}) × Db
create_source directory user t request id now =
    transaction (create_body directory user t request id now)

-- The columns that `start_source_sync` sets.
abbrev pub syncing : ℕ → KnowledgeSource → KnowledgeSource
syncing now s = record s {
  sync_version = s.sync_version + 1;
  status = SourceStatus.syncing;
  last_error_code = none;
  updated_at = now;
}

abbrev pub set_source : ℕ → ℕ → KnowledgeSource → Db → Db
set_source t id row db = record db { sources = update_where (is_source t id) (λ _. row) db.sources }

abbrev pub sync_event : ℕ → String → KnowledgeSource → SyncEvent
sync_event t correlation s = record {
  tenant_id = t;
  source_id = s.id;
  sync_version = s.sync_version;
  correlation_id = correlation;
}

abbrev pub start_found : ℕ → ℕ → String → ℕ → Option KnowledgeSource → Tx (Unit {0})
start_found t id correlation now none = raise source_not_found
start_found t id correlation now (some s) =
    raise_if (is_disabled s.status) source_disabled
    >> (modify (set_source t id (syncing now s))
        >> add_outbox_event (sync_event t correlation (syncing now s)))

unfoldable pub start_body : Directory → ℕ → ℕ → ℕ → String → ℕ → Tx (Unit {0})
start_body directory user t id correlation now =
    require_permission directory user t
    >> (gets (get_knowledge_source_for_update t id) >>= start_found t id correlation now)

-- `start_source_sync`, with the correlation id that `_normalize_correlation_id` gave.
unfoldable pub start_source_sync : Directory → ℕ → ℕ → ℕ → String → ℕ → Db → Result (Unit {0}) × Db
start_source_sync directory user t id correlation now =
    transaction (start_body directory user t id correlation now)

-- What a file upload is asked for.
pub record FileRequest : Type 0 where
  pub source_type : SourceType
  pub name : String
  pub access_scope : AccessScope

-- What one upload meets: `validated` is the size of an accepted file, `others` what other
-- sessions commit before its transactions (0 the admission, 1 the intent, 2 the commit, 3 and 4
-- the arming and the inline success, 5 what handles a failed transaction).
pub record Around : Type 0 where
  pub directory : Directory
  pub validated : Option ℕ
  pub object_id : ℕ
  pub cleanup_id : ℕ
  pub uuid_text : ℕ → String
  pub finalized_at : ℕ
  pub prepared_at : ℕ
  pub committed_at : ℕ
  pub failed_at : ℕ
  pub put_succeeds : Bool
  pub delete_succeeds : Bool
  pub others : ℕ → Db → Db

pub data Failure : Type 0 where
  raised : Error → Failure
  upload_refused object_storage_failed : Failure

-- The failure if there is one, the tables, and the key that `put_object` was called with, with
-- the tables that were committed just before.
pub record Upload : Type 0 where
  pub failure : Option Failure
  pub tables : Db
  pub put : Option (String × Db)

abbrev failed_early : Failure → Db → Upload
failed_early f db = record { failure = some f; tables = db; put = none }

-- The transaction between the admission and the PUT.
unfoldable pub intent_body : Around → ℕ → ReservationClaim → String → Tx (Unit {0})
intent_body a t r key =
    add_upload_cleanup_intent a.cleanup_id t r.source_id a.object_id key
      (prepared_cleanup_due_at a.prepared_at) a.prepared_at
    >> bind_upload_reservation_to_cleanup t r.reservation_id a.cleanup_id a.prepared_at

abbrev pub commit_found :
    ℕ
    → ℕ
    → FileRequest
    → ReservationClaim
    → String
    → ℕ
    → ℕ
    → ℕ
    → Option KnowledgeUploadCleanup
    → Tx (Unit {0})
commit_found user t request r key size cleanup now none = raise runtime_error
commit_found user t request r key size cleanup now (some c) =
    raise_if (not (is_prepared c.status)) runtime_error
    >> (add_file_knowledge_source r.source_id t request.source_type request.name key size
          request.access_scope user now
        >> (lift (mark_upload_cleanup_referenced c now) >>= λ row.
            store t cleanup row >> release_upload_reservation t r.reservation_id))

-- The transaction after the PUT.
unfoldable pub commit_body :
    ℕ → ℕ → FileRequest → ReservationClaim → String → ℕ → ℕ → ℕ → Tx (Unit {0})
commit_body user t request r key size cleanup now =
    gets (get_upload_cleanup_for_update t cleanup)
    >>= commit_found user t request r key size cleanup now

unfoldable pub end_lease : ℕ → ℕ → ℕ → Db → Db
end_lease t cleanup now db =
    (transaction (expire_upload_concurrency_lease_for_cleanup t cleanup now) db).1

-- `_best_effort_failed_upload_cleanup`: an exception of one of its parts is dropped.
unfoldable pub best_effort_failed_upload_cleanup : Around → ℕ → Bool → Db → Db
best_effort_failed_upload_cleanup a t confirmed db =
    let ended = end_lease t a.cleanup_id a.failed_at db in
    let armed =
      if confirmed
      then (arm_upload_cleanup t a.cleanup_id source_persistence_failed a.failed_at
          (a.others 3 ended)).1
      else ended in
    if a.delete_succeeds && confirmed
    then (mark_inline_cleanup_succeeded t a.cleanup_id a.failed_at (a.others 4 armed)).1
    else armed

abbrev pub after_commit : Around → ℕ → Option (String × Db) → Result (Unit {0}) × Db → Upload
after_commit a t put (ok _, db) = record { failure = none; tables = db; put = put }
after_commit a t put (err e, db) = record {
  failure = some (raised e);
  tables = best_effort_failed_upload_cleanup a t true (a.others 5 db);
  put = put;
}

-- The PUT and what follows it; `db` was committed just before.
unfoldable pub put_and_commit :
    Around → ℕ → ℕ → FileRequest → ReservationClaim → String → ℕ → Db → Upload
put_and_commit a user t request r key size db =
    if a.put_succeeds
    then after_commit a t (some (key, db)) (
        transaction (commit_body user t request r key size a.cleanup_id a.committed_at)
          (a.others 2 db))
    else record {
      failure = some object_storage_failed;
      tables = best_effort_failed_upload_cleanup a t false (a.others 2 db);
      put = some (key, db);
    }

abbrev pub after_intent :
    Around → ℕ → ℕ → FileRequest → ReservationClaim → String → ℕ → Result (Unit {0}) × Db → Upload
after_intent a user t request r key size (err e, db) =
    failed_early (raised e) (release_unlinked_reservation t r.reservation_id (a.others 5 db)).1
after_intent a user t request r key size (ok _, db) = put_and_commit a user t request r key size db

abbrev pub after_finalize :
    Around → ℕ → ℕ → FileRequest → ReservationClaim → ℕ → Result ReservationClaim × Db → Upload
after_finalize a user t request admission size (err e, db) =
    failed_early (raised e)
      (release_unlinked_reservation t admission.reservation_id (a.others 5 db)).1
after_finalize a user t request admission size (ok r, db) =
    let key = raw_key_value a.uuid_text t r.source_id a.object_id in
    after_intent a user t request r key size (transaction (intent_body a t r key) (a.others 1 db))

abbrev pub after_validation :
    Around → ℕ → ℕ → FileRequest → ReservationClaim → Option ℕ → Db → Upload
after_validation a user t request admission none db =
    failed_early upload_refused (release_unlinked_reservation t admission.reservation_id db).1
after_validation a user t request admission (some size) db =
    after_finalize a user t request admission size
      (finalize_file_upload_reservation t admission size a.finalized_at (a.others 0 db))

-- `create_file_source`
unfoldable pub create_file_source : Around → ℕ → ℕ → FileRequest → ReservationClaim → Db → Upload
create_file_source a user t request admission db =
    if is_permitted a.directory user t
    then after_validation a user t request admission a.validated db
    else failed_early (raised forbidden)
        (release_unlinked_reservation t admission.reservation_id db).1
