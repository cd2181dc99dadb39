-- ===== src/Knowledge/Cleanup/Constraints.antt =====
-- The constraints of the cleanup table: at most three attempts, a due time exactly while the
-- obligation is unresolved, a resolution time otherwise. The transitions of a row keep them, and
-- so do the transactions of a request.
use serviq.Common.{
  ℕ, ◌≤◌, ◌≡◌, refl, String, Option, none, some, not, ◌||◌, arith, is_some, All, All-find_where,
  All-update_where,
}
use serviq.Knowledge.Rows.{Db, KnowledgeUploadCleanup}
use serviq.Knowledge.Tx.{Tx, Result, ok, err, ◌>>=◌, ◌>>◌, pure}
use serviq.Common.Tx.Preserves.{
  Preserves, Preserves-bind, Preserves-modify, Preserves-raise, Preserves-pure, Preserves-if,
  Preserves-transaction,
}
use serviq.Knowledge.Repository.{release_upload_reservation_for_cleanup}
use serviq.Knowledge.Repository.Cleanups.{
  is_referenced, is_succeeded, is_exhausted, is_unresolved, is_cleanup, put_cleanup,
  get_upload_cleanup_for_update, mark_upload_cleanup_pending, mark_upload_cleanup_succeeded,
  mark_upload_cleanup_exhausted,
}
use serviq.Knowledge.Cleanup.{
  max_attempts, Claimed, lift, store, require_cleanup, found_or_raise, mark_succeeded_once, arm_row,
  arm_upload_cleanup, inline_row, mark_inline_cleanup_succeeded, is_resolved,
}

pub record IsConsistent (c : KnowledgeUploadCleanup) : Type 0 where
  pub attempts : c.attempt_count ≤ max_attempts
  pub scheduled : is_some c.next_attempt_at ≡ is_unresolved c.status
  pub settled : is_some c.resolved_at ≡ not (is_unresolved c.status)

abbrev pub CleanupsConsistent : Db → Type 0
CleanupsConsistent db = All IsConsistent db.cleanups

pub store-Consistent :
    (t id : ℕ) (row : KnowledgeUploadCleanup)
    → IsConsistent row
    → Preserves CleanupsConsistent (store t id row)
store-Consistent t id row h =
    Preserves-modify (put_cleanup t id row)
      λ db p. All-update_where IsConsistent (is_cleanup t id) (λ _. row) db.cleanups (λ _ _. h) p

pub store_then :
    (t id : ℕ) (row : KnowledgeUploadCleanup) (x : Claimed)
    → IsConsistent row
    → Preserves CleanupsConsistent (store t id row >> pure x)
store_then t id row x h = Preserves-bind _ _ (store-Consistent t id row h) (λ _. Preserves-pure x)

pub release-Consistent :
    (t id : ℕ) → Preserves CleanupsConsistent (release_upload_reservation_for_cleanup t id)
unfolding release_upload_reservation_for_cleanup
release-Consistent t id = Preserves-modify _ (λ db p. p)

-- A body that goes on with a row that was read, and one that goes on with a changed row.
pub require-Consistent :
    {A : Type 0} (t id : ℕ) (f : KnowledgeUploadCleanup → Tx A)
    → ((c : KnowledgeUploadCleanup) → IsConsistent c → Preserves CleanupsConsistent (f c))
    → Preserves CleanupsConsistent (require_cleanup t id >>= f)
unfolding require_cleanup get_upload_cleanup_for_update
require-Consistent {A} t id f pf = record {
  run = λ db a db' p e. go db a db' p (get_upload_cleanup_for_update t id db) refl e;
}
  where
    go :
        (db : Db) (a : A) (db' : Db)
        → CleanupsConsistent db
        → (found : Option KnowledgeUploadCleanup) → get_upload_cleanup_for_update t id db ≡ found
        → (found_or_raise found >>= f) db ≡ ok (a, db')
        → CleanupsConsistent db'
    go db a db' p none found e = absurd (cc)
    go db a db' p (some c) found e =
        (pf c (All-find_where IsConsistent (is_cleanup t id) db.cleanups c p found)).run db a db' p
          e

pub lift-Consistent :
    {A : Type 0} (r : Result KnowledgeUploadCleanup) (f : KnowledgeUploadCleanup → Tx A)
    → ((c : KnowledgeUploadCleanup) → r ≡ ok c → Preserves CleanupsConsistent (f c))
    → Preserves CleanupsConsistent (lift r >>= f)
lift-Consistent (ok c) f pf = pf c refl
lift-Consistent (err e) f pf = Preserves-raise e

mark_pending-Consistent :
    (c row : KnowledgeUploadCleanup) (due : ℕ) (code : String) (now : ℕ)
    → IsConsistent c
    → mark_upload_cleanup_pending c due code now ≡ ok row
    → IsConsistent row
unfolding mark_upload_cleanup_pending
mark_pending-Consistent c row due code now h e = ground arith

mark_succeeded-Consistent :
    (c row : KnowledgeUploadCleanup) (now : ℕ)
    → IsConsistent c
    → mark_upload_cleanup_succeeded c now ≡ ok row
    → IsConsistent row
unfolding mark_upload_cleanup_succeeded
mark_succeeded-Consistent c row now h e = ground arith

pub mark_exhausted-Consistent :
    (c row : KnowledgeUploadCleanup) (code : String) (now : ℕ)
    → c.attempt_count ≤ max_attempts
    → mark_upload_cleanup_exhausted c code now ≡ ok row
    → IsConsistent row
unfolding mark_upload_cleanup_exhausted
mark_exhausted-Consistent c row code now h e = ground arith

arm_row-Consistent :
    (t id : ℕ) (code : String) (now : ℕ) (c : KnowledgeUploadCleanup)
    → IsConsistent c
    → Preserves CleanupsConsistent (arm_row t id code now c)
unfolding arm_row
arm_row-Consistent t id code now c h =
    Preserves-if (is_resolved c.status) _ _ (λ _. Preserves-pure tt)
      λ _.
        lift-Consistent _ _
          λ row e. store-Consistent t id row (mark_pending-Consistent c row _ code now h e)

pub once-Consistent :
    (t id now : ℕ) (c : KnowledgeUploadCleanup)
    → IsConsistent c
    → Preserves CleanupsConsistent (mark_succeeded_once t id now c)
unfolding mark_succeeded_once
once-Consistent t id now c h =
    Preserves-if (is_succeeded c.status) _ _ (λ _. Preserves-pure tt)
      λ _.
        lift-Consistent _ _
          λ row e. store-Consistent t id row (mark_succeeded-Consistent c row now h e)

inline_row-Consistent :
    (t id now : ℕ) (c : KnowledgeUploadCleanup)
    → IsConsistent c
    → Preserves CleanupsConsistent (inline_row t id now c)
unfolding inline_row
inline_row-Consistent t id now c h =
    Preserves-if (is_referenced c.status || is_exhausted c.status) _ _ (λ _. Preserves-pure tt)
      λ _. Preserves-bind _ _ (once-Consistent t id now c h) (λ _. release-Consistent t id)

-- Arming an obligation keeps the constraints of the cleanup table, whether it succeeds or raises.
pub arm-Consistent :
    (t id : ℕ) (code : String) (now : ℕ) (db : Db)
    → CleanupsConsistent db
    → CleanupsConsistent (arm_upload_cleanup t id code now db).1
unfolding arm_upload_cleanup
arm-Consistent t id code now db =
    Preserves-transaction _ (require-Consistent t id _ (arm_row-Consistent t id code now)) db

-- Recording a request-time delete keeps the constraints of the cleanup table, whether it succeeds
-- or raises.
pub inline-Consistent :
    (t id now : ℕ) (db : Db)
    → CleanupsConsistent db
    → CleanupsConsistent (mark_inline_cleanup_succeeded t id now db).1
unfolding mark_inline_cleanup_succeeded
inline-Consistent t id now db =
    Preserves-transaction _ (require-Consistent t id _ (inline_row-Consistent t id now)) db
