-- ===== src/Knowledge/Cleanup/Frame.antt =====
-- One rule for every invariant of the tables under a replay: it is enough that each of its
-- transactions keeps it, and what other sessions commit in the meantime.
use serviq.Common.{ℕ, String, true, false, not, ◌&&◌, if◌then◌else◌}
use serviq.Knowledge.Rows.{Db}
use serviq.Knowledge.Tx.{Result, ok, err}
use serviq.Knowledge.Cleanup.{
  Claimed, done, claim, CleanupClaim, object_storage_error, put_outcome_ambiguous,
}
use serviq.Knowledge.Cleanup.Replay.{
  claim_due_cleanup, record_failed_attempt, record_success, Surroundings, finish, delete_and_record,
  execute_claim, is_visible, after_claim, reconcile_upload_cleanup,
}

module _ (P : Db → Type 0) (t id : ℕ) (s : Surroundings) (others : (d : Db) → P d → P (s.others d))
    (failed : (code : String) (d : Db) → P d → P (record_failed_attempt t id code s.later d).1)
    (succeeded : (d : Db) → P d → P (record_success t id s.later d).1) where
  delete_and_record_keeps : (db : Db) → P db → P (delete_and_record t id s db).tables
  unfolding delete_and_record
  delete_and_record_keeps db h =
      elim s.deletes
        as (λ b.
          P
            (if b
              then finish (record_success t id s.later (s.others db)) true
              else finish (record_failed_attempt t id object_storage_error s.later (s.others db))
                  true).tables) [
                    | true ↦ succeeded _ (others db h)
                    | false ↦ failed _ _ (others db h)
                  ]

  execute_claim_keeps : (c : CleanupClaim) (db : Db) → P db → P (execute_claim t id s c db).tables
  unfolding execute_claim
  execute_claim_keeps c db h =
      elim (c.requires_presence_confirmation && not (is_visible s.exists))
        as (λ b.
          P
            (if b
              then finish (record_failed_attempt t id put_outcome_ambiguous s.later (s.others db))
                  false
              else delete_and_record t id s db).tables) [
                | true ↦ failed _ _ (others db h)
                | false ↦ delete_and_record_keeps db h
              ]

  after_claim_keeps : (r : Result Claimed × Db) → P r.1 → P (after_claim t id s r).tables
  after_claim_keeps (err e, db) h = h
  after_claim_keeps (ok (done r), db) h = h
  after_claim_keeps (ok (claim c), db) h = execute_claim_keeps c db h

  pub reconcile_keeps :
      (uuid_text : ℕ → String) (now : ℕ) (db : Db)
      → P (claim_due_cleanup uuid_text t id now db).1
      → P (reconcile_upload_cleanup uuid_text t id now s db).tables
  unfolding reconcile_upload_cleanup
  reconcile_keeps uuid_text now db h = after_claim_keeps (claim_due_cleanup uuid_text t id now db) h
