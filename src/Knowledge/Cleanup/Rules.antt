-- ===== src/Knowledge/Cleanup/Rules.antt =====
-- The transactions of a replay keep the constraints of the cleanup table.
use serviq.Common.{ℕ, ◌≤◌, ◌≡◌, String, true, false, arith, leb, str_eq}
use serviq.Knowledge.Rows.{Db, KnowledgeUploadCleanup, CleanupStatus}
use serviq.Common.Tx.Preserves.{
  Preserves, Preserves-bind, Preserves-pure, Preserves-if, Preserves-transaction,
}
use serviq.Knowledge.Repository.Cleanups.{is_referenced, is_succeeded, is_exhausted, is_unresolved}
use serviq.Knowledge.Cleanup.{max_attempts, done, Outcome, raw_key_value, exhausted}
use serviq.Knowledge.Cleanup.Frame.{reconcile_keeps}
use serviq.Knowledge.Cleanup.Replay.{
  exhaust, start_attempt, attempted, claim_unresolved, claim_row, claim_due_cleanup, failed_once,
  failed_row, record_failed_attempt, success_row, record_success, Surroundings,
  reconcile_upload_cleanup, is_not_due, released, replayed,
}
use serviq.Knowledge.Cleanup.Constraints.{
  CleanupsConsistent, IsConsistent, lift-Consistent, mark_exhausted-Consistent, once-Consistent,
  release-Consistent, require-Consistent, store-Consistent, store_then,
}

exhaust-Consistent :
    (t id : ℕ) (code : String) (now : ℕ) (c : KnowledgeUploadCleanup)
    → c.attempt_count ≤ max_attempts
    → Preserves CleanupsConsistent (exhaust t id code now c)
unfolding exhaust
exhaust-Consistent t id code now c h = lift-Consistent _ _ λ row e.
    Preserves-bind _ _ (store-Consistent t id row (mark_exhausted-Consistent c row code now h e))
      (λ _. Preserves-pure (done (replayed exhausted row)))

released-Consistent :
    (t id : ℕ) (o : Outcome) (c : KnowledgeUploadCleanup)
    → Preserves CleanupsConsistent (released t id o c)
released-Consistent t id o c = Preserves-bind _ _ (release-Consistent t id) (λ _. Preserves-pure _)

attempted-Consistent :
    (now : ℕ) (c : KnowledgeUploadCleanup)
    → IsConsistent c
    → is_unresolved c.status ≡ true
    → leb max_attempts c.attempt_count ≡ false
    → IsConsistent (attempted now c)
attempted-Consistent now c h unresolved few = ground arith

claim_unresolved-Consistent :
    (uuid_text : ℕ → String) (t id now : ℕ) (c : KnowledgeUploadCleanup)
    → IsConsistent c
    → is_unresolved c.status ≡ true
    → Preserves CleanupsConsistent (claim_unresolved uuid_text t id now c)
unfolding claim_unresolved start_attempt
claim_unresolved-Consistent uuid_text t id now c h unresolved =
    Preserves-if (is_not_due c.next_attempt_at now) _ _ (λ _. Preserves-pure _)
      λ _.
        Preserves-if (leb max_attempts c.attempt_count) _ _
          (λ _. exhaust-Consistent t id _ now c h.attempts)
          λ few.
            Preserves-if
              (str_eq (raw_key_value uuid_text c.tenant_id c.source_id c.object_id) c.object_key) _
              _
              (λ _.
                store_then t id (attempted now c) _ (attempted-Consistent now c h unresolved few))
              (λ _. exhaust-Consistent t id _ now _ (omega arith))

pub unresolved_rest :
    (s : CleanupStatus)
    → is_referenced s ≡ false
    → is_succeeded s ≡ false
    → is_exhausted s ≡ false
    → is_unresolved s ≡ true
unresolved_rest s a b c = ground arith

failed_once-Consistent :
    (code : String) (now : ℕ) (c : KnowledgeUploadCleanup)
    → IsConsistent c
    → is_unresolved c.status ≡ true
    → IsConsistent (failed_once code now c)
failed_once-Consistent code now c h unresolved = ground arith

claim_row-Consistent :
    (uuid_text : ℕ → String) (t id now : ℕ) (c : KnowledgeUploadCleanup)
    → IsConsistent c
    → Preserves CleanupsConsistent (claim_row uuid_text t id now c)
unfolding claim_row
claim_row-Consistent uuid_text t id now c h =
    Preserves-if (is_referenced c.status) _ _ (λ _. released-Consistent t id _ c)
      λ a.
        Preserves-if (is_succeeded c.status) _ _ (λ _. released-Consistent t id _ c)
          λ b.
            Preserves-if (is_exhausted c.status) _ _ (λ _. Preserves-pure _)
              λ d.
                claim_unresolved-Consistent uuid_text t id now c h (unresolved_rest c.status a b d)

failed_row-Consistent :
    (t id : ℕ) (code : String) (now : ℕ) (c : KnowledgeUploadCleanup)
    → IsConsistent c
    → Preserves CleanupsConsistent (failed_row t id code now c)
unfolding failed_row
failed_row-Consistent t id code now c h =
    Preserves-if (is_referenced c.status) _ _ (λ _. released-Consistent t id _ c)
      λ a.
        Preserves-if (is_succeeded c.status) _ _ (λ _. released-Consistent t id _ c)
          λ b.
            Preserves-if (is_exhausted c.status) _ _ (λ _. Preserves-pure _)
              λ d.
                Preserves-if (leb max_attempts c.attempt_count) _ _
                  (λ _. exhaust-Consistent t id code now c h.attempts)
                  λ _.
                    store_then t id (failed_once code now c) _
                      (failed_once-Consistent code now c h (unresolved_rest c.status a b d))

success_row-Consistent :
    (t id now : ℕ) (c : KnowledgeUploadCleanup)
    → IsConsistent c
    → Preserves CleanupsConsistent (success_row t id now c)
unfolding success_row
success_row-Consistent t id now c h =
    Preserves-if (is_referenced c.status) _ _ (λ _. released-Consistent t id _ c)
      λ _.
        Preserves-bind _ _ (once-Consistent t id now c h)
          λ _. Preserves-bind _ _ (release-Consistent t id) (λ _. Preserves-pure _)

claim_due-Consistent :
    (uuid_text : ℕ → String) (t id now : ℕ) (db : Db)
    → CleanupsConsistent db
    → CleanupsConsistent (claim_due_cleanup uuid_text t id now db).1
unfolding claim_due_cleanup
claim_due-Consistent uuid_text t id now db =
    Preserves-transaction _ (require-Consistent t id _ (claim_row-Consistent uuid_text t id now)) db

record_failed-Consistent :
    (t id : ℕ) (code : String) (now : ℕ) (db : Db)
    → CleanupsConsistent db
    → CleanupsConsistent (record_failed_attempt t id code now db).1
unfolding record_failed_attempt
record_failed-Consistent t id code now db =
    Preserves-transaction _ (require-Consistent t id _ (failed_row-Consistent t id code now)) db

record_success-Consistent :
    (t id now : ℕ) (db : Db)
    → CleanupsConsistent db
    → CleanupsConsistent (record_success t id now db).1
unfolding record_success
record_success-Consistent t id now db =
    Preserves-transaction _ (require-Consistent t id _ (success_row-Consistent t id now)) db

-- A whole replay keeps the constraints of the cleanup table, whatever the object store answers,
-- as long as what other sessions commit in the meantime keeps them.
pub reconcile-Consistent :
    (uuid_text : ℕ → String) (t id now : ℕ) (s : Surroundings) (db : Db)
    → ((d : Db) → CleanupsConsistent d → CleanupsConsistent (s.others d))
    → CleanupsConsistent db
    → CleanupsConsistent (reconcile_upload_cleanup uuid_text t id now s db).tables
reconcile-Consistent uuid_text t id now s db others h =
    reconcile_keeps CleanupsConsistent t id s others
      (λ code. record_failed-Consistent t id code s.later) (record_success-Consistent t id s.later)
      uuid_text now db (claim_due-Consistent uuid_text t id now db h)
