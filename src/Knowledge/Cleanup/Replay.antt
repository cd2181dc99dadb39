-- ===== src/Knowledge/Cleanup/Replay.antt =====
-- The replay of one cleanup obligation, in
-- services/api/app/modules/knowledge/cleanup.py.
use serviq.Common.{
  ℕ, ◌+◌, String, Option, none, some, Bool, true, false, not, ◌&&◌, ◌||◌, leb, ltb, str_eq,
  if◌then◌else◌,
}
use serviq.Knowledge.Rows.{Db, KnowledgeUploadCleanup, CleanupStatus}
use serviq.Knowledge.Tx.{Tx, Result, ok, err, ◌>>=◌, ◌>>◌, pure, transaction}
use serviq.Knowledge.Repository.{release_upload_reservation_for_cleanup, has_key}
use serviq.Knowledge.Repository.Cleanups.{
  is_prepared, is_referenced, is_succeeded, is_exhausted, mark_upload_cleanup_exhausted,
}
use serviq.Knowledge.Cleanup.{
  max_attempts, object_storage_error, put_outcome_ambiguous, key_mismatch, raw_key_value,
  lease_until, Outcome, not_due, noop_referenced, noop_succeeded, exhausted, succeeded,
  retry_scheduled, ReplayResult, CleanupClaim, Claimed, done, claim, lift, store, require_cleanup,
  mark_succeeded_once,
}

abbrev pub replayed : Outcome → KnowledgeUploadCleanup → ReplayResult
replayed o c = record { outcome = o; attempt_count = c.attempt_count }

-- `cleanup.next_attempt_at is None or cleanup.next_attempt_at > now`
abbrev pub is_not_due : Option ℕ → ℕ → Bool
is_not_due none now = true
is_not_due (some due) now = ltb now due

-- `code or OBJECT_STORAGE_ERROR_CODE`: a missing or empty code is replaced.
abbrev pub code_or_default : Option String → String
code_or_default none = object_storage_error
code_or_default (some code) = if str_eq code "" then object_storage_error else code

unfoldable pub exhaust : ℕ → ℕ → String → ℕ → KnowledgeUploadCleanup → Tx Claimed
exhaust t id code now c = do
  row ← lift (mark_upload_cleanup_exhausted c code now)
  store t id row
  pure (done (replayed exhausted row))

-- A prepared row with no error so far records that the outcome of its PUT is unknown.
abbrev pub claimed_error : KnowledgeUploadCleanup → Option String
claimed_error c = elim c.last_error_code [
  | none ↦ if is_prepared c.status then some put_outcome_ambiguous else none
  | some code ↦ some code
]

abbrev pub needs_presence : KnowledgeUploadCleanup → Bool
needs_presence c = is_prepared c.status || has_key put_outcome_ambiguous c.last_error_code

-- The row that a new attempt writes.
abbrev pub attempted : ℕ → KnowledgeUploadCleanup → KnowledgeUploadCleanup
attempted now c = record c {
  status = CleanupStatus.pending;
  attempt_count = c.attempt_count + 1;
  next_attempt_at = some (lease_until now (c.attempt_count + 1));
  last_error_code = claimed_error c;
  updated_at = now;
}

unfoldable pub start_attempt : ℕ → ℕ → ℕ → KnowledgeUploadCleanup → Tx Claimed
start_attempt t id now c = do
  store t id (attempted now c)
  pure (
      claim (record {
        source_id = c.source_id;
        object_id = c.object_id;
        attempt_count = c.attempt_count + 1;
        requires_presence_confirmation = needs_presence c;
        object_key = c.object_key;
      }))

abbrev pub released : ℕ → ℕ → Outcome → KnowledgeUploadCleanup → Tx Claimed
released t id o c = do release_upload_reservation_for_cleanup t id; pure (done (replayed o c))

-- The branches of `_claim_due_cleanup` on a row that is unresolved.
unfoldable pub claim_unresolved : (ℕ → String) → ℕ → ℕ → ℕ → KnowledgeUploadCleanup → Tx Claimed
claim_unresolved uuid_text t id now c =
    if is_not_due c.next_attempt_at now
    then pure (done (replayed not_due c))
    else if leb max_attempts c.attempt_count
    then exhaust t id (code_or_default c.last_error_code) now c
    else if str_eq (raw_key_value uuid_text c.tenant_id c.source_id c.object_id) c.object_key
    then start_attempt t id now c
    else exhaust t id key_mismatch now (record c { attempt_count = max_attempts })

unfoldable pub claim_row : (ℕ → String) → ℕ → ℕ → ℕ → KnowledgeUploadCleanup → Tx Claimed
claim_row uuid_text t id now c =
    if is_referenced c.status
    then released t id noop_referenced c
    else if is_succeeded c.status
    then released t id noop_succeeded c
    else if is_exhausted c.status
    then pure (done (replayed exhausted c))
    else claim_unresolved uuid_text t id now c

-- `_claim_due_cleanup`
unfoldable pub claim_due_cleanup : (ℕ → String) → ℕ → ℕ → ℕ → Db → Result Claimed × Db
claim_due_cleanup uuid_text t id now =
    transaction (do c ← require_cleanup t id; claim_row uuid_text t id now c)

abbrev pub failed_once : String → ℕ → KnowledgeUploadCleanup → KnowledgeUploadCleanup
failed_once code now c = record c {
  status = CleanupStatus.pending;
  last_error_code = some code;
  updated_at = now;
}

-- The branches of `_record_failed_attempt`.
unfoldable pub failed_row : ℕ → ℕ → String → ℕ → KnowledgeUploadCleanup → Tx Claimed
failed_row t id code now c =
    if is_referenced c.status
    then released t id noop_referenced c
    else if is_succeeded c.status
    then released t id noop_succeeded c
    else if is_exhausted c.status
    then pure (done (replayed exhausted c))
    else if leb max_attempts c.attempt_count
    then exhaust t id code now c
    else (do store t id (failed_once code now c); pure (done (replayed retry_scheduled c)))

unfoldable pub record_failed_attempt : ℕ → ℕ → String → ℕ → Db → Result Claimed × Db
record_failed_attempt t id code now =
    transaction (do c ← require_cleanup t id; failed_row t id code now c)

-- The last transaction of `reconcile_upload_cleanup`, after the object is deleted.
unfoldable pub success_row : ℕ → ℕ → ℕ → KnowledgeUploadCleanup → Tx Claimed
success_row t id now c = if is_referenced c.status then released t id noop_referenced c else (do
  mark_succeeded_once t id now c
  release_upload_reservation_for_cleanup t id
  pure (done (replayed succeeded c)))

unfoldable pub record_success : ℕ → ℕ → ℕ → Db → Result Claimed × Db
record_success t id now = transaction (do c ← require_cleanup t id; success_row t id now c)

-- What happens outside the tables during one replay: the answers of the object store (`none` is
-- an ObjectStorageError), the clock at the last transaction, and what other sessions commit
-- between the claim and that transaction.
pub record Surroundings : Type 0 where
  pub exists : Option Bool
  pub deletes : Bool
  pub later : ℕ
  pub others : Db → Db

-- The result of a replay, the tables, and whether `storage.delete_object` was called.
pub record Replay : Type 0 where
  pub result : Result Claimed
  pub tables : Db
  pub delete_called : Bool

abbrev pub finish : Result Claimed × Db → Bool → Replay
finish (r, db) called = record { result = r; tables = db; delete_called = called }

unfoldable pub delete_and_record : ℕ → ℕ → Surroundings → Db → Replay
delete_and_record t id s db =
    if s.deletes
    then finish (record_success t id s.later (s.others db)) true
    else finish (record_failed_attempt t id object_storage_error s.later (s.others db)) true

-- `object_visible`, where an error counts as not visible: both record the same failure.
abbrev pub is_visible : Option Bool → Bool
is_visible none = false
is_visible (some b) = b

unfoldable pub execute_claim : ℕ → ℕ → Surroundings → CleanupClaim → Db → Replay
execute_claim t id s c db =
    if c.requires_presence_confirmation && not (is_visible s.exists)
    then finish (record_failed_attempt t id put_outcome_ambiguous s.later (s.others db)) false
    else delete_and_record t id s db

abbrev pub after_claim : ℕ → ℕ → Surroundings → Result Claimed × Db → Replay
after_claim t id s (err e, db) = finish (err e, db) false
after_claim t id s (ok (done r), db) = finish (ok (done r), db) false
after_claim t id s (ok (claim c), db) = execute_claim t id s c db

-- `reconcile_upload_cleanup`
unfoldable pub reconcile_upload_cleanup : (ℕ → String) → ℕ → ℕ → ℕ → Surroundings → Db → Replay
reconcile_upload_cleanup uuid_text t id now s db =
    after_claim t id s (claim_due_cleanup uuid_text t id now db)
