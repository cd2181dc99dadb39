-- ===== src/Worker/UploadCleanupExamples.antt =====
-- The theorems on services/worker/app/jobs/knowledge_upload_cleanup.py at a concrete batch.
use serviq.Common.{ℕ, ◌+◌, ◌≤◌, ◌≡◌, refl, inl, String, none, some, true, false, [], ◌∷◌, arith}
use serviq.Common.Tx.{ok, transaction}
use serviq.Knowledge.Rows.{Db, KnowledgeUploadCleanup, CleanupStatus}
use serviq.Knowledge.Cleanup.{raw_key_value}
use serviq.Knowledge.Cleanup.Replay.{Surroundings, claim_due_cleanup}
use serviq.Worker.UploadCleanup.{
  CleanupBatchResult, claim_row, reconcile_due_upload_cleanups, is_malformed, claim_due_batch,
  claim_due, execute_claim, record_success, relock_cleanup, release_reservation,
}
use serviq.Worker.UploadCleanup.Batch.{reconcile_due_upload_cleanups-adds_up}
use serviq.Worker.UploadCleanup.Refines.{claim_row-claim_due_cleanup}

abbrev same_text : ℕ → String
same_text _ = "u"

abbrev row : KnowledgeUploadCleanup
row = record {
  id = 5;
  tenant_id = 1;
  source_id = 2;
  object_id = 3;
  object_key = "tenants/u/knowledge/u/raw/u";
  status = CleanupStatus.prepared;
  attempt_count = 0;
  next_attempt_at = some 10;
  last_error_code = none;
  resolved_at = none;
  created_at = 1;
  updated_at = 1;
}

abbrev worn : KnowledgeUploadCleanup
worn = record row {
  id = 6;
  source_id = 7;
  object_key = "tenants/u/knowledge/u/raw/other";
  status = CleanupStatus.pending;
  attempt_count = 3;
}

abbrev db : Db
db = record {
  tenants = 1 ∷ [];
  sources = [];
  reservations = [];
  cleanups = row ∷ worn ∷ [];
  outbox = [];
}

-- The object is shown, and its deletion succeeds.
abbrev calm : ℕ → Surroundings
calm _ = record { exists = some true; deletes = true; later = 30; others = λ d. d }

abbrev counts : CleanupBatchResult
counts = record { processed = 2; succeeded = 1; retry_scheduled = 0; exhausted = 1 }

batch_ok : (reconcile_due_upload_cleanups same_text (λ _. false) calm 20 50 db).result ≡ ok counts
unfolding reconcile_due_upload_cleanups claim_due_batch claim_due claim_row is_malformed
    raw_key_value execute_claim record_success relock_cleanup release_reservation
batch_ok = refl

reconcile_due_upload_cleanups-adds_up_example : (2 ≡ 1 + 0 + 1) × (2 ≤ 50) × (50 ≤ 100)
reconcile_due_upload_cleanups-adds_up_example =
    reconcile_due_upload_cleanups-adds_up same_text (λ _. false) calm 20 50 db counts batch_ok

claim_row-claim_due_cleanup_example :
    (transaction (claim_row same_text 20 row) db).1 ≡ (claim_due_cleanup same_text 1 5 20 db).1
unfolding is_malformed raw_key_value
claim_row-claim_due_cleanup_example =
    claim_row-claim_due_cleanup same_text 1 5 20 row db refl (omega arith) refl refl (inl refl)
