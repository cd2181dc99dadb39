-- ===== src/Knowledge/Cleanup.antt =====
-- services/api/app/modules/knowledge/cleanup.py: reconciliation of failed raw uploads. Each
-- transaction is a function on the tables; `reconcile_upload_cleanup` runs them with the storage
-- calls between, and with whatever other sessions commit in the meantime. Log lines are not
-- modelled. The text of a UUID is a parameter.
pub mod Replay
pub mod Frame
pub mod Rules
pub mod Constraints
pub mod Safety
pub mod Leases
pub mod Settles
pub mod Sweep
use Prim.Native.String.{◌++◌ as append}
use serviq.Common.{
  ℕ, ◌+◌, ◌*◌, String, Option, none, some, Bool, true, false, not, ◌&&◌, ◌||◌, List, [], ◌∷◌, leb,
  ltb, ◌==◌, str_eq, if◌then◌else◌,
}
use serviq.Knowledge.Rows.{Db, KnowledgeUploadCleanup, CleanupStatus}
use serviq.Knowledge.Tx.{
  Tx, Error, Result, ok, err, ◌>>=◌, ◌>>◌, pure, gets, modify, raise, transaction,
  cleanup_unavailable,
}
use serviq.Knowledge.Repository.{release_upload_reservation_for_cleanup}
use serviq.Knowledge.Repository.Cleanups.{
  is_prepared, is_referenced, is_succeeded, is_exhausted, get_upload_cleanup_for_update,
  put_cleanup, mark_upload_cleanup_pending, mark_upload_cleanup_succeeded,
  mark_upload_cleanup_exhausted,
}
use serviq.Knowledge.Quota.{second}

-- The delays of the module, in the unit of the clock.
abbrev pub prepared_stale_after : ℕ
prepared_stale_after = 900 * second

abbrev pub first_retry_delay : ℕ
first_retry_delay = 30 * second

abbrev pub second_retry_delay : ℕ
second_retry_delay = 300 * second

abbrev pub third_retry_delay : ℕ
third_retry_delay = 1800 * second

abbrev pub max_attempts : ℕ
max_attempts = 3

abbrev pub object_storage_error : String
object_storage_error = "OBJECT_STORAGE_UNAVAILABLE"

abbrev pub put_outcome_ambiguous : String
put_outcome_ambiguous = "OBJECT_STORAGE_PUT_OUTCOME_AMBIGUOUS"

abbrev pub source_persistence_failed : String
source_persistence_failed = "KNOWLEDGE_SOURCE_PERSISTENCE_FAILED"

abbrev pub key_mismatch : String
key_mismatch = "KNOWLEDGE_UPLOAD_CLEANUP_KEY_MISMATCH"

-- `KnowledgeRawObjectKey.value` of core/object_storage.py, over the text of a UUID.
unfoldable pub raw_key_value : (ℕ → String) → ℕ → ℕ → ℕ → String
raw_key_value uuid_text tenant source object = append "tenants/" (
    append (uuid_text tenant)
      (append "/knowledge/" (append (uuid_text source) (append "/raw/" (uuid_text object)))))

abbrev pub prepared_cleanup_due_at : ℕ → ℕ
prepared_cleanup_due_at now = now + prepared_stale_after

abbrev pub first_retry_due_at : ℕ → ℕ
first_retry_due_at now = now + first_retry_delay

abbrev pub lease_until : ℕ → ℕ → ℕ
lease_until now attempt = if attempt == 1 then now + second_retry_delay else now + third_retry_delay

pub data Outcome : Type 0 where
  not_due noop_referenced noop_succeeded exhausted succeeded retry_scheduled : Outcome

-- `CleanupReplayResult`, less the two ids that the caller passed in.
pub record ReplayResult : Type 0 where
  pub outcome : Outcome
  pub attempt_count : ℕ

pub record CleanupClaim : Type 0 where
  pub source_id : ℕ
  pub object_id : ℕ
  pub attempt_count : ℕ
  pub requires_presence_confirmation : Bool
  pub object_key : String

pub data Claimed : Type 0 where
  done : ReplayResult → Claimed
  claim : CleanupClaim → Claimed

abbrev pub lift : {A : Type 0} → Result A → Tx A
lift r db = elim r [ ok a ↦ ok (a, db) | err e ↦ err e ]

-- A flush of the changed row.
abbrev pub store : ℕ → ℕ → KnowledgeUploadCleanup → Tx (Unit {0})
store t id row = modify (put_cleanup t id row)

abbrev pub found_or_raise : Option KnowledgeUploadCleanup → Tx KnowledgeUploadCleanup
found_or_raise none = raise cleanup_unavailable
found_or_raise (some c) = pure c

-- `get_upload_cleanup_for_update`, and the exception where there is no row.
unfoldable pub require_cleanup : ℕ → ℕ → Tx KnowledgeUploadCleanup
require_cleanup t id = do found ← gets (get_upload_cleanup_for_update t id); found_or_raise found

abbrev pub is_resolved : CleanupStatus → Bool
is_resolved s = is_referenced s || is_succeeded s || is_exhausted s

unfoldable pub arm_row : ℕ → ℕ → String → ℕ → KnowledgeUploadCleanup → Tx (Unit {0})
arm_row t id code now c = if is_resolved c.status then pure tt else (do
  row ← lift (mark_upload_cleanup_pending c (first_retry_due_at now) code now)
  store t id row)

unfoldable pub arm_upload_cleanup : ℕ → ℕ → String → ℕ → Db → Result (Unit {0}) × Db
arm_upload_cleanup t id code now =
    transaction (do c ← require_cleanup t id; arm_row t id code now c)

-- `if cleanup.status != "succeeded": mark_upload_cleanup_succeeded(...)`
unfoldable pub mark_succeeded_once : ℕ → ℕ → ℕ → KnowledgeUploadCleanup → Tx (Unit {0})
mark_succeeded_once t id now c =
    if is_succeeded c.status
    then pure tt
    else (do row ← lift (mark_upload_cleanup_succeeded c now); store t id row)

unfoldable pub inline_row : ℕ → ℕ → ℕ → KnowledgeUploadCleanup → Tx (Unit {0})
inline_row t id now c =
    if is_referenced c.status || is_exhausted c.status
    then pure tt
    else (do mark_succeeded_once t id now c; release_upload_reservation_for_cleanup t id)

unfoldable pub mark_inline_cleanup_succeeded : ℕ → ℕ → ℕ → Db → Result (Unit {0}) × Db
mark_inline_cleanup_succeeded t id now =
    transaction (do c ← require_cleanup t id; inline_row t id now c)
