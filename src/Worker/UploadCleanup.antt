-- ===== src/Worker/UploadCleanup.antt =====
-- services/worker/app/jobs/knowledge_upload_cleanup.py: one bounded batch of the worker's own
-- reconciliation of uploads, over the tables of the API. What one claim meets between its two
-- transactions (the object store, the clock, other sessions) is a `Surroundings`, and the rows
-- that other sessions have locked are an argument. Log lines and the endless loop are left out.
pub mod Refines
pub mod Batch
use serviq.Common.{
  ℕ, suc, ◌+◌, ◌*◌, String, Option, none, some, Bool, true, false, not, ◌&&◌, ◌||◌, List, [], ◌∷◌,
  ◌++◌, ltb, leb, ◌==◌, str_eq, if◌then◌else◌, length, take, find_where, filter_where, delete_where,
  update_where, sort_by, is_id,
}
use serviq.Common.Tx.{
  Tx as TxOver, Result as ResultOver, ok, err, ◌>>=◌, ◌>>◌, pure, gets, modify, raise, raise_if,
  transaction,
}
use serviq.Knowledge.Rows.{Db, KnowledgeUploadCleanup, KnowledgeUploadReservation, CleanupStatus}
use serviq.Knowledge.Quota.{second}
use serviq.Knowledge.Cleanup.{raw_key_value}
use serviq.Knowledge.Cleanup.Replay.{Surroundings, is_visible}

abbrev pub max_batch_size : ℕ
max_batch_size = 100

abbrev pub max_attempts : ℕ
max_attempts = 3

abbrev pub second_retry_delay : ℕ
second_retry_delay = 300 * second

abbrev pub third_retry_delay : ℕ
third_retry_delay = 1800 * second

abbrev pub object_storage_error : String
object_storage_error = "OBJECT_STORAGE_UNAVAILABLE"

abbrev pub put_outcome_ambiguous : String
put_outcome_ambiguous = "OBJECT_STORAGE_PUT_OUTCOME_AMBIGUOUS"

abbrev pub key_mismatch : String
key_mismatch = "KNOWLEDGE_UPLOAD_CLEANUP_KEY_MISMATCH"

-- KnowledgeUploadCleanupStateError, and ValueError for the size of a batch.
pub data Error : Type 0 where
  state_error value_error : Error

abbrev pub Result : Type 0 → Type 0
Result A = ResultOver Error A

abbrev pub Tx : Type 0 → Type 0
Tx A = TxOver Db Error A

pub data Outcome : Type 0 where
  succeeded retry_scheduled exhausted : Outcome

pub record CleanupClaim : Type 0 where
  pub cleanup_id : ℕ
  pub tenant_id : ℕ
  pub source_id : ℕ
  pub object_id : ℕ
  pub attempt_count : ℕ
  pub requires_presence_confirmation : Bool
  pub object_key : String

abbrev pub is_open_status : CleanupStatus → Bool
is_open_status CleanupStatus.prepared = true
is_open_status CleanupStatus.pending = true
is_open_status _ = false

abbrev pub is_pending_status : CleanupStatus → Bool
is_pending_status CleanupStatus.pending = true
is_pending_status _ = false

abbrev pub is_prepared_status : CleanupStatus → Bool
is_prepared_status CleanupStatus.prepared = true
is_prepared_status _ = false

-- `next_attempt_at <= :now`, where NULL is not at most anything.
abbrev pub is_due_at : ℕ → Option ℕ → Bool
is_due_at now none = false
is_due_at now (some due) = leb due now

abbrev due_time : Option ℕ → ℕ
due_time none = 0
due_time (some due) = due

abbrev pub due_before : KnowledgeUploadCleanup → KnowledgeUploadCleanup → Bool
due_before c d =
    ltb (due_time c.next_attempt_at) (due_time d.next_attempt_at)
    || (due_time c.next_attempt_at == due_time d.next_attempt_at && ltb c.id d.id)

abbrev pub is_claimable : (KnowledgeUploadCleanup → Bool) → ℕ → KnowledgeUploadCleanup → Bool
is_claimable locked now c =
    is_open_status c.status && is_due_at now c.next_attempt_at && not (locked c)

-- `_CLAIM_DUE`
unfoldable pub claim_due :
    (KnowledgeUploadCleanup → Bool) → ℕ → ℕ → Db → List KnowledgeUploadCleanup
claim_due locked now batch_size db =
    take batch_size (sort_by due_before (filter_where (is_claimable locked now) db.cleanups))

-- `WHERE id = :cleanup_id AND tenant_id = :tenant_id`
abbrev pub is_row : ℕ → ℕ → KnowledgeUploadCleanup → Bool
is_row id t c = c.id == id && c.tenant_id == t

abbrev pub is_open_row : ℕ → ℕ → KnowledgeUploadCleanup → Bool
is_open_row id t c = is_row id t c && is_open_status c.status

abbrev pub is_pending_row : ℕ → ℕ → KnowledgeUploadCleanup → Bool
is_pending_row id t c = is_row id t c && is_pending_status c.status

abbrev pub set_rows :
    (KnowledgeUploadCleanup → Bool) → (KnowledgeUploadCleanup → KnowledgeUploadCleanup) → Db → Db
set_rows p f db = record db { cleanups = update_where p f db.cleanups }

-- `_MARK_CLAIMED`
abbrev pub as_claimed : ℕ → ℕ → Option String → ℕ → KnowledgeUploadCleanup → KnowledgeUploadCleanup
as_claimed attempts next code now c = record c {
  status = CleanupStatus.pending;
  attempt_count = attempts;
  next_attempt_at = some next;
  last_error_code = code;
  updated_at = now;
}

-- `_MARK_EXHAUSTED`
abbrev pub as_exhausted : ℕ → String → ℕ → KnowledgeUploadCleanup → KnowledgeUploadCleanup
as_exhausted attempts code now c = record c {
  status = CleanupStatus.exhausted;
  attempt_count = attempts;
  next_attempt_at = none;
  last_error_code = some code;
  resolved_at = some now;
  updated_at = now;
}

-- `_RECORD_RETRY`
abbrev pub as_retry : String → ℕ → KnowledgeUploadCleanup → KnowledgeUploadCleanup
as_retry code now c = record c { last_error_code = some code; updated_at = now }

-- `_MARK_SUCCEEDED`
abbrev pub as_succeeded : ℕ → KnowledgeUploadCleanup → KnowledgeUploadCleanup
as_succeeded now c = record c {
  status = CleanupStatus.succeeded;
  next_attempt_at = none;
  last_error_code = none;
  resolved_at = some now;
  updated_at = now;
}

abbrev pub mark_exhausted : ℕ → ℕ → ℕ → String → ℕ → Tx (Unit {0})
mark_exhausted id t attempts code now =
    modify (set_rows (is_open_row id t) (as_exhausted attempts code now))

-- `_RELEASE_RESERVATION`
abbrev pub is_held_by : ℕ → ℕ → KnowledgeUploadReservation → Bool
is_held_by t id r = r.tenant_id == t && is_id r.cleanup_id id

unfoldable pub release_reservation : ℕ → ℕ → Tx (Unit {0})
release_reservation t id =
    modify (λ db. record db { reservations = delete_where (is_held_by t id) db.reservations })

abbrev pub is_empty_code : Option String → Bool
is_empty_code none = false
is_empty_code (some code) = str_eq code ""

-- The checks of `_decode_claim_row` that a typed row can fail.
unfoldable pub is_malformed : KnowledgeUploadCleanup → Bool
is_malformed c =
    str_eq c.object_key ""
    || not (is_open_status c.status)
    || not (leb c.attempt_count max_attempts)
    || is_empty_code c.last_error_code

abbrev pub is_ambiguous : Option String → Bool
is_ambiguous none = false
is_ambiguous (some code) = str_eq code put_outcome_ambiguous

abbrev pub lease_until : ℕ → ℕ → ℕ
lease_until now attempts =
    if attempts == 1 then now + second_retry_delay else now + third_retry_delay

-- `last_error_code or OBJECT_STORAGE_ERROR_CODE`; an empty code has been refused.
abbrev pub code_or_default : Option String → String
code_or_default none = object_storage_error
code_or_default (some code) = if str_eq code "" then object_storage_error else code

-- `error_code` of a claim
abbrev pub first_error : CleanupStatus → Option String → Option String
first_error status none = if is_prepared_status status then some put_outcome_ambiguous else none
first_error status (some code) = some code

abbrev pub claim_of : KnowledgeUploadCleanup → CleanupClaim
claim_of c = record {
  cleanup_id = c.id;
  tenant_id = c.tenant_id;
  source_id = c.source_id;
  object_id = c.object_id;
  attempt_count = c.attempt_count + 1;
  requires_presence_confirmation = is_prepared_status c.status || is_ambiguous c.last_error_code;
  object_key = c.object_key;
}

abbrev pub start_claim : ℕ → KnowledgeUploadCleanup → Tx (Option CleanupClaim)
start_claim now c =
    modify (
      set_rows (is_open_row c.id c.tenant_id) (
        as_claimed (c.attempt_count + 1) (lease_until now (c.attempt_count + 1))
          (first_error c.status c.last_error_code) now))
    >> pure (some (claim_of c))

-- The body of the loop: a claim, or none for a row that is exhausted.
unfoldable pub claim_row : (ℕ → String) → ℕ → KnowledgeUploadCleanup → Tx (Option CleanupClaim)
claim_row uuid_text now c =
    raise_if (is_malformed c) state_error
    >> (if not (str_eq (raw_key_value uuid_text c.tenant_id c.source_id c.object_id) c.object_key)
        then mark_exhausted c.id c.tenant_id max_attempts key_mismatch now >> pure none
        else if leb max_attempts c.attempt_count
        then mark_exhausted c.id c.tenant_id c.attempt_count (code_or_default c.last_error_code) now
          >> pure none
        else start_claim now c)

-- The claims so far and the number of exhausted rows.
abbrev pub counted : Option CleanupClaim → List CleanupClaim × ℕ → List CleanupClaim × ℕ
counted none (claims, dead) = (claims, suc dead)
counted (some c) (claims, dead) = (c ∷ claims, dead)

abbrev pub claim_rows : (ℕ → String) → ℕ → List KnowledgeUploadCleanup → Tx (List CleanupClaim × ℕ)
claim_rows uuid_text now [] = pure ([], 0)
claim_rows uuid_text now (c ∷ cs) = claim_row uuid_text now c >>= λ one.
    claim_rows uuid_text now cs >>= λ rest. pure (counted one rest)

-- `_claim_due_batch`
unfoldable pub claim_due_batch :
    (ℕ → String)
    → (KnowledgeUploadCleanup → Bool)
    → ℕ
    → ℕ
    → Db
    → Result (List CleanupClaim × ℕ) × Db
claim_due_batch uuid_text locked now batch_size =
    transaction (gets (claim_due locked now batch_size) >>= claim_rows uuid_text now)

-- `_RELOCK_CLEANUP`
unfoldable pub relock_cleanup : ℕ → ℕ → Db → Option KnowledgeUploadCleanup
relock_cleanup id t db = find_where (is_row id t) db.cleanups

abbrev pub failed_pending : CleanupClaim → String → ℕ → ℕ → Tx Outcome
failed_pending claim code now attempts =
    if leb max_attempts attempts
    then mark_exhausted claim.cleanup_id claim.tenant_id attempts code now >> pure exhausted
    else (modify (set_rows (is_pending_row claim.cleanup_id claim.tenant_id) (as_retry code now))
        >> pure retry_scheduled)

abbrev pub failed_status : CleanupClaim → String → ℕ → ℕ → CleanupStatus → Tx Outcome
failed_status claim code now attempts CleanupStatus.exhausted = pure exhausted
failed_status claim code now attempts CleanupStatus.referenced =
    release_reservation claim.tenant_id claim.cleanup_id >> pure succeeded
failed_status claim code now attempts CleanupStatus.succeeded =
    release_reservation claim.tenant_id claim.cleanup_id >> pure succeeded
failed_status claim code now attempts CleanupStatus.prepared = raise state_error
failed_status claim code now attempts CleanupStatus.pending = failed_pending claim code now attempts

abbrev pub failed_found : CleanupClaim → String → ℕ → Option KnowledgeUploadCleanup → Tx Outcome
failed_found claim code now none = raise state_error
failed_found claim code now (some c) =
    raise_if (not (leb c.attempt_count max_attempts)) state_error
    >> failed_status claim code now c.attempt_count c.status

-- `_record_failed_attempt`
unfoldable pub record_failed_attempt : CleanupClaim → String → ℕ → Db → Result Outcome × Db
record_failed_attempt claim code now =
    transaction
      (gets (relock_cleanup claim.cleanup_id claim.tenant_id) >>= failed_found claim code now)

abbrev pub success_status : CleanupClaim → ℕ → CleanupStatus → Tx Outcome
success_status claim now CleanupStatus.exhausted = pure exhausted
success_status claim now CleanupStatus.referenced = raise state_error
success_status claim now CleanupStatus.prepared = raise state_error
success_status claim now CleanupStatus.succeeded =
    release_reservation claim.tenant_id claim.cleanup_id >> pure succeeded
success_status claim now CleanupStatus.pending =
    modify (set_rows (is_pending_row claim.cleanup_id claim.tenant_id) (as_succeeded now))
    >> (release_reservation claim.tenant_id claim.cleanup_id >> pure succeeded)

abbrev pub success_found : CleanupClaim → ℕ → Option KnowledgeUploadCleanup → Tx Outcome
success_found claim now none = raise state_error
success_found claim now (some c) = success_status claim now c.status

-- `_record_success`
unfoldable pub record_success : CleanupClaim → ℕ → Db → Result Outcome × Db
record_success claim now =
    transaction (gets (relock_cleanup claim.cleanup_id claim.tenant_id) >>= success_found claim now)

-- The outcome, the tables, and the key that `storage.delete_object` was called with.
pub record Executed : Type 0 where
  pub outcome : Result Outcome
  pub tables : Db
  pub deleted : Option String

abbrev pub executed : Result Outcome × Db → Option String → Executed
executed (r, db) key = record { outcome = r; tables = db; deleted = key }

-- `_execute_claim`
unfoldable pub execute_claim : Surroundings → CleanupClaim → Db → Executed
execute_claim s c db =
    if c.requires_presence_confirmation && not (is_visible s.exists)
    then executed (record_failed_attempt c put_outcome_ambiguous s.later (s.others db)) none
    else if s.deletes
    then executed (record_success c s.later (s.others db)) (some c.object_key)
    else executed (record_failed_attempt c object_storage_error s.later (s.others db))
        (some c.object_key)

pub record CleanupBatchResult : Type 0 where
  pub processed : ℕ
  pub succeeded : ℕ
  pub retry_scheduled : ℕ
  pub exhausted : ℕ

-- What a batch leaves: its counts, or the exception that stopped it.
pub record BatchRun : Type 0 where
  pub result : Result CleanupBatchResult
  pub tables : Db

abbrev pub one_more : Outcome → CleanupBatchResult → CleanupBatchResult
one_more Outcome.succeeded r = record r { succeeded = suc r.succeeded }
one_more Outcome.retry_scheduled r = record r { retry_scheduled = suc r.retry_scheduled }
one_more Outcome.exhausted r = record r { exhausted = suc r.exhausted }

abbrev pub after_claim : Executed → (Db → BatchRun) → BatchRun
after_claim e rest =
    let later = rest e.tables in
    elim e.outcome [
      | err x ↦ record { result = err x; tables = e.tables }
      | ok o ↦ record later {
        result = elim later.result [ ok r ↦ ok (one_more o r) | err x ↦ err x ];
      }
    ]

-- The loop over the claims, from the counts that the claiming transaction has left.
abbrev pub execute_claims :
    (ℕ → Surroundings) → CleanupBatchResult → List CleanupClaim → Db → BatchRun
execute_claims around r [] db = record { result = ok r; tables = db }
execute_claims around r (c ∷ cs) db =
    after_claim (execute_claim (around c.cleanup_id) c db) (execute_claims around r cs)

abbrev pub claimed_counts : List CleanupClaim → ℕ → CleanupBatchResult
claimed_counts claims dead = record {
  processed = length claims + dead;
  succeeded = 0;
  retry_scheduled = 0;
  exhausted = dead;
}

abbrev pub run_claims : (ℕ → Surroundings) → Result (List CleanupClaim × ℕ) × Db → BatchRun
run_claims around (err x, db) = record { result = err x; tables = db }
run_claims around (ok (claims, dead), db) =
    execute_claims around (claimed_counts claims dead) claims db

-- `reconcile_due_upload_cleanups`
unfoldable pub reconcile_due_upload_cleanups :
    (ℕ → String) → (KnowledgeUploadCleanup → Bool) → (ℕ → Surroundings) → ℕ → ℕ → Db → BatchRun
reconcile_due_upload_cleanups uuid_text locked around now batch_size db =
    if leb 1 batch_size && leb batch_size max_batch_size
    then run_claims around (claim_due_batch uuid_text locked now batch_size db)
    else record { result = err value_error; tables = db }
