-- ===== src/Knowledge/Repository/Cleanups.antt =====
-- services/api/app/modules/knowledge/repository.py: the statements on upload cleanups and the
-- four transitions of a cleanup row.
use serviq.Common.{
  ℕ, String, Option, none, some, Bool, true, false, ◌&&◌, ◌||◌, [], ◌∷◌, ◌++◌, ltb, ◌==◌, str_eq,
  if◌then◌else◌, count_where, find_where, update_where,
}
use serviq.Knowledge.Rows.{Db, KnowledgeUploadCleanup, CleanupStatus}
use serviq.Knowledge.Tx.{Tx, Result, ok, err, value_error, integrity_error, raise, modify}

-- `cleanup.status in {"prepared", "pending"}`
abbrev pub is_unresolved : CleanupStatus → Bool
is_unresolved CleanupStatus.prepared = true
is_unresolved CleanupStatus.pending = true
is_unresolved _ = false

abbrev pub is_prepared : CleanupStatus → Bool
is_prepared CleanupStatus.prepared = true
is_prepared _ = false

abbrev pub is_referenced : CleanupStatus → Bool
is_referenced CleanupStatus.referenced = true
is_referenced _ = false

abbrev pub is_succeeded : CleanupStatus → Bool
is_succeeded CleanupStatus.succeeded = true
is_succeeded _ = false

abbrev pub is_exhausted : CleanupStatus → Bool
is_exhausted CleanupStatus.exhausted = true
is_exhausted _ = false

-- `WHERE tenant_id = t AND id = cleanup_id`
abbrev pub is_cleanup : ℕ → ℕ → KnowledgeUploadCleanup → Bool
is_cleanup t id c = c.tenant_id == t && c.id == id

unfoldable pub get_upload_cleanup_for_update : ℕ → ℕ → Db → Option KnowledgeUploadCleanup
get_upload_cleanup_for_update t id db = find_where (is_cleanup t id) db.cleanups

-- The flush of a cleanup row that was read under the same key and then changed.
abbrev pub put_cleanup : ℕ → ℕ → KnowledgeUploadCleanup → Db → Db
put_cleanup t id row db = record db {
  cleanups = update_where (is_cleanup t id) (λ c. row) db.cleanups;
}

-- The table's unique keys: id, (tenant_id, source_id) and object_key.
abbrev cleanup_clashes : KnowledgeUploadCleanup → KnowledgeUploadCleanup → Bool
cleanup_clashes new c =
    c.id == new.id
    || (c.tenant_id == new.tenant_id && c.source_id == new.source_id)
    || str_eq c.object_key new.object_key

abbrev pub new_cleanup : ℕ → ℕ → ℕ → ℕ → String → ℕ → ℕ → KnowledgeUploadCleanup
new_cleanup id tenant source object key due now = record {
  id = id;
  tenant_id = tenant;
  source_id = source;
  object_id = object;
  object_key = key;
  status = CleanupStatus.prepared;
  attempt_count = 0;
  next_attempt_at = some due;
  last_error_code = none;
  resolved_at = none;
  created_at = now;
  updated_at = now;
}

unfoldable pub add_upload_cleanup_intent : ℕ → ℕ → ℕ → ℕ → String → ℕ → ℕ → Tx (Unit {0})
add_upload_cleanup_intent id tenant source object key due now db =
    let row = new_cleanup id tenant source object key due now in
    if ltb 0 (count_where (cleanup_clashes row) db.cleanups)
    then raise integrity_error db
    else modify (λ d. record d { cleanups = d.cleanups ++ row ∷ [] }) db

unfoldable pub mark_upload_cleanup_pending :
    KnowledgeUploadCleanup → ℕ → String → ℕ → Result KnowledgeUploadCleanup
mark_upload_cleanup_pending c due code now =
    if is_unresolved c.status
    then ok (record c {
      status = CleanupStatus.pending;
      next_attempt_at = some due;
      last_error_code = some code;
      resolved_at = none;
      updated_at = now;
    })
    else err value_error

unfoldable pub mark_upload_cleanup_referenced :
    KnowledgeUploadCleanup → ℕ → Result KnowledgeUploadCleanup
mark_upload_cleanup_referenced c now =
    if is_prepared c.status
    then ok (record c {
      status = CleanupStatus.referenced;
      next_attempt_at = none;
      last_error_code = none;
      resolved_at = some now;
      updated_at = now;
    })
    else err value_error

unfoldable pub mark_upload_cleanup_succeeded :
    KnowledgeUploadCleanup → ℕ → Result KnowledgeUploadCleanup
mark_upload_cleanup_succeeded c now =
    if is_referenced c.status || is_exhausted c.status
    then err value_error
    else ok (record c {
      status = CleanupStatus.succeeded;
      next_attempt_at = none;
      last_error_code = none;
      resolved_at = some now;
      updated_at = now;
    })

unfoldable pub mark_upload_cleanup_exhausted :
    KnowledgeUploadCleanup → String → ℕ → Result KnowledgeUploadCleanup
mark_upload_cleanup_exhausted c code now =
    if is_unresolved c.status
    then ok (record c {
      status = CleanupStatus.exhausted;
      next_attempt_at = none;
      last_error_code = some code;
      resolved_at = some now;
      updated_at = now;
    })
    else err value_error
