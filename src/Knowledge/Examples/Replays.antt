-- ===== src/Knowledge/Examples/Replays.antt =====
-- The cleanup theorems at concrete tables.
use serviq.Common.{length, ◌≤◌, ℕ, ◌<◌, ◌≡◌, ◌⊎◌, refl, String, some, true, false, arith, str_eq}
use serviq.Knowledge.Rows.{Db, KnowledgeUploadCleanup}
use serviq.Knowledge.Tx.{ok}
use serviq.Knowledge.Repository.{release_upload_reservation_for_cleanup}
use serviq.Knowledge.Repository.Cleanups.{
  get_upload_cleanup_for_update, is_unresolved, put_cleanup, mark_upload_cleanup_succeeded,
}
use serviq.Knowledge.Cleanup.{
  max_attempts, done, CleanupClaim, retry_scheduled, succeeded, require_cleanup, raw_key_value,
  mark_succeeded_once,
}
use serviq.Knowledge.Cleanup.Replay.{
  attempted, start_attempt, claim_unresolved, claim_row, claim_due_cleanup, failed_row,
  record_failed_attempt, success_row, record_success, needs_presence, is_not_due, Surroundings,
  delete_and_record, execute_claim, reconcile_upload_cleanup,
}
use serviq.Knowledge.Cleanup.Constraints.{CleanupsConsistent}
use serviq.Knowledge.Cleanup.Rules.{reconcile-Consistent}
use serviq.Knowledge.Cleanup.Safety.{delete_needs_grounds}
use serviq.Knowledge.Cleanup.Settles.{
  IsReleased, IsSettled, HoldAfter, success_settles, failed_attempt_hold,
}
use serviq.Knowledge.Cleanup.Sweep.{reconcile_due_upload_cleanups, reconcile_due-IsSwept}
use serviq.Knowledge.Examples.{tables, obligation}

abbrev same_text : ℕ → String
same_text n = "u"

abbrev calm : Surroundings
calm = record { exists = some true; deletes = true; later = 700; others = λ db. db }

delete_run : (reconcile_upload_cleanup same_text 1 71 600 calm tables).delete_called ≡ true
unfolding reconcile_upload_cleanup claim_due_cleanup require_cleanup get_upload_cleanup_for_update
    claim_row claim_unresolved raw_key_value start_attempt execute_claim delete_and_record
delete_run = refl

delete_needs_grounds_example :
    (c : KnowledgeUploadCleanup) × (get_upload_cleanup_for_update 1 71 tables ≡ some c)
    × (is_unresolved c.status ≡ true)
    × (is_not_due c.next_attempt_at 600 ≡ false)
    × (c.attempt_count < max_attempts)
    × (str_eq (raw_key_value same_text c.tenant_id c.source_id c.object_id) c.object_key ≡ true)
    × ((needs_presence c ≡ false) ⊎ (calm.exists ≡ some true))
delete_needs_grounds_example = delete_needs_grounds same_text 1 71 600 calm tables delete_run

abbrev first_claim : CleanupClaim
first_claim = record {
  source_id = 23;
  object_id = 33;
  attempt_count = 1;
  requires_presence_confirmation = true;
  object_key = "tenants/u/knowledge/u/raw/u";
}

abbrev second_claim : CleanupClaim
second_claim = record first_claim { attempt_count = 2 }

abbrev claimed : Db
claimed = put_cleanup 1 71 (attempted 600 obligation) tables

abbrev settled : Db
settled = (record_success 1 71 700 claimed).1

success_run :
    record_success 1 71 700 claimed
    ≡ (ok (done (record { outcome = succeeded; attempt_count = 1 })), settled)
unfolding record_success require_cleanup get_upload_cleanup_for_update success_row
    mark_succeeded_once mark_upload_cleanup_succeeded release_upload_reservation_for_cleanup
success_run = refl

success_settles_example : IsReleased 1 71 settled × IsSettled 1 71 settled
success_settles_example = success_settles 1 71 700 _ claimed settled success_run

abbrev retried : Db
retried = (record_failed_attempt 1 71 "OBJECT_STORAGE_UNAVAILABLE" 700 claimed).1

failed_run :
    record_failed_attempt 1 71 "OBJECT_STORAGE_UNAVAILABLE" 700 claimed
    ≡ (ok (done (record { outcome = retry_scheduled; attempt_count = 1 })), retried)
unfolding record_failed_attempt require_cleanup get_upload_cleanup_for_update failed_row
failed_run = refl

failed_attempt_hold_example : HoldAfter 1 71 retry_scheduled claimed retried
failed_attempt_hold_example =
    failed_attempt_hold 1 71 "OBJECT_STORAGE_UNAVAILABLE" 700
      (record { outcome = retry_scheduled; attempt_count = 1 }) claimed retried failed_run

tables-CleanupsConsistent : CleanupsConsistent tables
tables-CleanupsConsistent = ground arith

reconcile-Consistent_example :
    CleanupsConsistent (reconcile_upload_cleanup same_text 1 71 600 calm tables).tables
reconcile-Consistent_example =
    reconcile-Consistent same_text 1 71 600 calm tables (λ d h. h) tables-CleanupsConsistent

reconcile_due-IsSwept_example :
    let s = reconcile_due_upload_cleanups same_text 600 10 (λ _. calm) (λ _ d. d) tables in
    CleanupsConsistent s.tables × (length s.results ≤ 10) × (s.deletes ≤ 10)
reconcile_due-IsSwept_example =
    reconcile_due-IsSwept same_text 600 (λ _. calm) (λ _ d. d) (λ n d h. h) (λ n d h. h) 10 tables
      tables-CleanupsConsistent
