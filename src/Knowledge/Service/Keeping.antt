-- ===== src/Knowledge/Service/Keeping.antt =====
-- The cleanup table under `create_file_source` of
-- services/api/app/modules/knowledge/service.py.
use serviq.Common.{
  ℕ, ◌≡◌, refl, String, Option, none, some, Bool, true, false, not, ◌&&◌, [], ◌∷◌, ◌++◌, arith, inl,
  inr, if◌then◌else◌, All-find_where, All-append_row,
}
use serviq.Common.Tx.Preserves.{
  Preserves, Preserves-bind, Preserves-modify, Preserves-raise, Preserves-raise_if,
  Preserves-transaction, Preserves-gets,
}
use serviq.Knowledge.Rows.{Db, KnowledgeSource, KnowledgeUploadCleanup}
use serviq.Knowledge.Tx.{Result, ok, err, transaction, ◌>>◌, runtime_error}
use serviq.Knowledge.Repository.{
  bind_upload_reservation_to_cleanup, expire_upload_concurrency_lease_for_cleanup,
  release_upload_reservation, add_source, add_file_knowledge_source,
}
use serviq.Knowledge.Repository.Cleanups.{
  is_prepared, is_cleanup, new_cleanup, add_upload_cleanup_intent, mark_upload_cleanup_referenced,
  get_upload_cleanup_for_update,
}
use serviq.Knowledge.Quota.{
  ReservationClaim, release_unlinked_reservation, finalize_file_upload_reservation,
}
use serviq.Knowledge.Quota.Finalize.{finalize_cases}
use serviq.Knowledge.Cleanup.{
  raw_key_value, source_persistence_failed, store, arm_upload_cleanup,
  mark_inline_cleanup_succeeded,
}
use serviq.Knowledge.Cleanup.Constraints.{
  IsConsistent, CleanupsConsistent, store-Consistent, lift-Consistent, arm-Consistent,
  inline-Consistent,
}
use serviq.Knowledge.Service.Uploads.{bind_upload_reservation-linked}
use serviq.Knowledge.Service.Charges.{source_row}
use serviq.Knowledge.Service.{
  is_permitted, FileRequest, Around, Upload, intent_body, commit_body, commit_found, end_lease,
  best_effort_failed_upload_cleanup, put_and_commit, after_commit, after_intent, after_finalize,
  after_validation, create_file_source,
}

add_intent_inv :
    (id t source object : ℕ) (key : String) (due now : ℕ) (db db' : Db) (a : Unit {0})
    → add_upload_cleanup_intent id t source object key due now db ≡ ok (a, db')
    → db'.cleanups ≡ db.cleanups ++ new_cleanup id t source object key due now ∷ []
unfolding add_upload_cleanup_intent
add_intent_inv id t source object key due now db db' a e = ground (arith, e)

add_intent-Consistent :
    (id t source object : ℕ) (key : String) (due now : ℕ)
    → Preserves CleanupsConsistent (add_upload_cleanup_intent id t source object key due now)
add_intent-Consistent id t source object key due now = record {
  run = λ db a db' p e.
      let row = new_cleanup id t source object key due now in
      let fresh : IsConsistent row = record {
        attempts = omega arith;
        scheduled = refl;
        settled = refl;
      } in
      rw (add_intent_inv id t source object key due now db db' a e)
        (All-append_row IsConsistent db.cleanups row p fresh);
}

bind-Consistent :
    (t id cleanup now : ℕ)
    → Preserves CleanupsConsistent (bind_upload_reservation_to_cleanup t id cleanup now)
bind-Consistent t id cleanup now = record {
  run = λ db a db' p e. rw ((bind_upload_reservation-linked t id cleanup now db db' a e).1) p;
}

mark_referenced-Consistent :
    (c row : KnowledgeUploadCleanup) (now : ℕ)
    → IsConsistent c
    → mark_upload_cleanup_referenced c now ≡ ok row
    → IsConsistent row
unfolding mark_upload_cleanup_referenced
mark_referenced-Consistent c row now h e = ground arith

add_source-Consistent : (s : KnowledgeSource) → Preserves CleanupsConsistent (add_source s)
add_source-Consistent s = record { run = λ db a db' p e. rw (same db db' a e) p }
  where
    same : (db db' : Db) (a : Unit {0}) → add_source s db ≡ ok (a, db') → db'.cleanups ≡ db.cleanups
    same db db' a e = ground (arith, e)

drop_row-Consistent : (t id : ℕ) → Preserves CleanupsConsistent (release_upload_reservation t id)
unfolding release_upload_reservation
drop_row-Consistent t id = Preserves-modify _ (λ db p. p)

module _ (user t : ℕ) (request : FileRequest) (r : ReservationClaim) (key : String)
    (size cleanup now : ℕ) where
  commit_found-Consistent :
      (c : KnowledgeUploadCleanup)
      → IsConsistent c
      → Preserves CleanupsConsistent (commit_found user t request r key size cleanup now (some c))
  unfolding add_file_knowledge_source
  commit_found-Consistent c h =
      Preserves-bind _ _ (Preserves-raise_if (not (is_prepared c.status)) runtime_error) λ _.
        Preserves-bind _ _
          (add_source-Consistent (source_row user t request r key size cleanup now))
          λ _.
            lift-Consistent (mark_upload_cleanup_referenced c now)
              (λ row. store t cleanup row >> release_upload_reservation t r.reservation_id)
              λ row e.
                Preserves-bind _ _
                  (store-Consistent t cleanup row (mark_referenced-Consistent c row now h e))
                  λ _. drop_row-Consistent t r.reservation_id

  commit_found_or_not-Consistent :
      (o : Option KnowledgeUploadCleanup)
      → ((c : KnowledgeUploadCleanup) → o ≡ some c → IsConsistent c)
      → Preserves CleanupsConsistent (commit_found user t request r key size cleanup now o)
  commit_found_or_not-Consistent none h = Preserves-raise runtime_error
  commit_found_or_not-Consistent (some c) h = commit_found-Consistent c (h c refl)

  commit_body-Consistent :
      Preserves CleanupsConsistent (commit_body user t request r key size cleanup now)
  unfolding commit_body get_upload_cleanup_for_update
  commit_body-Consistent =
      Preserves-gets (get_upload_cleanup_for_update t cleanup)
        (commit_found user t request r key size cleanup now)
        λ db p.
          commit_found_or_not-Consistent _
            λ c e. All-find_where IsConsistent (is_cleanup t cleanup) db.cleanups c p e

module _ (a : Around) (t : ℕ) where
  intent_body-Consistent :
      (r : ReservationClaim) (key : String) → Preserves CleanupsConsistent (intent_body a t r key)
  unfolding intent_body
  intent_body-Consistent r key =
      Preserves-bind _ _
        (add_intent-Consistent a.cleanup_id t r.source_id a.object_id key _ a.prepared_at)
        λ _. bind-Consistent t r.reservation_id a.cleanup_id a.prepared_at

  end_lease-Consistent :
      (cleanup now : ℕ) (db : Db)
      → CleanupsConsistent db
      → CleanupsConsistent (end_lease t cleanup now db)
  unfolding end_lease expire_upload_concurrency_lease_for_cleanup
  end_lease-Consistent cleanup now db p = p

  finalize-Consistent :
      (admission : ReservationClaim) (bytes now : ℕ) (db : Db)
      → CleanupsConsistent db
      → CleanupsConsistent (finalize_file_upload_reservation t admission bytes now db).1
  finalize-Consistent admission bytes now db p = elim (finalize_cases t admission bytes now db) [
    | inl (e, refused) ↦ rw refused p
    | inr (claim, live, small, done) ↦ rw done p
  ]

  release_unlinked-Consistent :
      (id : ℕ) (db : Db)
      → CleanupsConsistent db
      → CleanupsConsistent (release_unlinked_reservation t id db).1
  unfolding release_unlinked_reservation release_upload_reservation
  release_unlinked-Consistent id db p = p

-- What other sessions commit during one upload keeps the constraints.
module _ (a : Around) (user t : ℕ) (request : FileRequest)
    (o : (n : ℕ) (d : Db) → CleanupsConsistent d → CleanupsConsistent (a.others n d)) where
  if-Consistent :
      (b : Bool) (d e : Db)
      → CleanupsConsistent d
      → CleanupsConsistent e
      → CleanupsConsistent (if b then d else e)
  if-Consistent true d e p q = p
  if-Consistent false d e p q = q

  best_effort-Consistent :
      (confirmed : Bool) (db : Db)
      → CleanupsConsistent db
      → CleanupsConsistent (best_effort_failed_upload_cleanup a t confirmed db)
  unfolding best_effort_failed_upload_cleanup
  best_effort-Consistent confirmed db p =
      let ended = end_lease t a.cleanup_id a.failed_at db in
      let q = end_lease-Consistent a t a.cleanup_id a.failed_at db p in
      let arms =
        arm_upload_cleanup t a.cleanup_id source_persistence_failed a.failed_at
          (a.others 3 ended) in
      let armed =
        arm-Consistent t a.cleanup_id source_persistence_failed a.failed_at (a.others 3 ended)
          (o 3 ended q) in
      let after : Db = if confirmed then arms.1 else ended in
      let kept : CleanupsConsistent after = if-Consistent confirmed arms.1 ended armed q in
      if-Consistent (a.delete_succeeds && confirmed)
        (mark_inline_cleanup_succeeded t a.cleanup_id a.failed_at (a.others 4 after)).1 after
        (inline-Consistent t a.cleanup_id a.failed_at (a.others 4 after) (o 4 after kept)) kept

  after_commit-Consistent :
      (put : Option (String × Db)) (end : Result (Unit {0}) × Db)
      → CleanupsConsistent end.1
      → CleanupsConsistent (after_commit a t put end).tables
  after_commit-Consistent put (ok u, db) p = p
  after_commit-Consistent put (err e, db) p = best_effort-Consistent true (a.others 5 db) (o 5 db p)

  either-Consistent :
      (b : Bool) (x y : Upload)
      → CleanupsConsistent x.tables
      → CleanupsConsistent y.tables
      → CleanupsConsistent (if b then x else y).tables
  either-Consistent true x y p q = p
  either-Consistent false x y p q = q

  put_and_commit-Consistent :
      (r : ReservationClaim) (key : String) (size : ℕ) (db : Db)
      → CleanupsConsistent db
      → CleanupsConsistent (put_and_commit a user t request r key size db).tables
  unfolding put_and_commit
  put_and_commit-Consistent r key size db p =
      let body = commit_body user t request r key size a.cleanup_id a.committed_at in
      let committed =
        Preserves-transaction body
          (commit_body-Consistent user t request r key size a.cleanup_id a.committed_at)
          (a.others 2 db) (o 2 db p) in
      either-Consistent a.put_succeeds _ _
        (after_commit-Consistent (some (key, db)) (transaction body (a.others 2 db)) committed)
        (best_effort-Consistent false (a.others 2 db) (o 2 db p))

  after_intent-Consistent :
      (r : ReservationClaim) (key : String) (size : ℕ) (end : Result (Unit {0}) × Db)
      → CleanupsConsistent end.1
      → CleanupsConsistent (after_intent a user t request r key size end).tables
  after_intent-Consistent r key size (ok u, db) p = put_and_commit-Consistent r key size db p
  after_intent-Consistent r key size (err e, db) p =
      release_unlinked-Consistent a t r.reservation_id (a.others 5 db) (o 5 db p)

  after_finalize-Consistent :
      (admission : ReservationClaim) (size : ℕ) (end : Result ReservationClaim × Db)
      → CleanupsConsistent end.1
      → CleanupsConsistent (after_finalize a user t request admission size end).tables
  after_finalize-Consistent admission size (err e, db) p =
      release_unlinked-Consistent a t admission.reservation_id (a.others 5 db) (o 5 db p)
  after_finalize-Consistent admission size (ok r, db) p =
      let key = raw_key_value a.uuid_text t r.source_id a.object_id in
      after_intent-Consistent r key size (transaction (intent_body a t r key) (a.others 1 db)) (
        Preserves-transaction (intent_body a t r key) (intent_body-Consistent a t r key)
          (a.others 1 db) (o 1 db p))

  after_validation-Consistent :
      (admission : ReservationClaim) (v : Option ℕ) (db : Db)
      → CleanupsConsistent db
      → CleanupsConsistent (after_validation a user t request admission v db).tables
  after_validation-Consistent admission none db p =
      release_unlinked-Consistent a t admission.reservation_id db p
  after_validation-Consistent admission (some size) db p =
      after_finalize-Consistent admission size _
        (finalize-Consistent a t admission size a.finalized_at (a.others 0 db) (o 0 db p))

  -- An upload keeps the constraints of the cleanup table on every path: refused, failed at any
  -- step with its best-effort cleanup, or committed, where what other sessions commit between its
  -- transactions keeps them.
  pub create_file_source-Consistent :
      (admission : ReservationClaim) (db : Db)
      → CleanupsConsistent db
      → CleanupsConsistent (create_file_source a user t request admission db).tables
  unfolding create_file_source
  create_file_source-Consistent admission db p =
      either-Consistent (is_permitted a.directory user t) _ _
        (after_validation-Consistent admission a.validated db p)
        (release_unlinked-Consistent a t admission.reservation_id db p)
