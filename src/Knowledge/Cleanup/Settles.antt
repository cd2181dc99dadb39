-- ===== src/Knowledge/Cleanup/Settles.antt =====
-- How the last transaction of a replay leaves the row and the quota hold of its upload.
use serviq.Common.{
  ℕ, ◌≡◌, ◌∙◌, inl, inr, refl, String, none, some, Bool, true, ◌||◌, arith, leb, List, [], ◌∷◌,
  find_where, update_where, find_where_holds, find_where-delete_where_self, Bool-cases,
}
use serviq.Knowledge.Rows.{Db, KnowledgeUploadCleanup, CleanupStatus}
use serviq.Knowledge.Tx.{ok, ◌>>=◌, transaction_cases, bind_inv, if_inv}
use serviq.Knowledge.Repository.{release_upload_reservation_for_cleanup, linked_to}
use serviq.Knowledge.Repository.Cleanups.{
  is_referenced, is_succeeded, is_exhausted, is_unresolved, is_cleanup,
  get_upload_cleanup_for_update, mark_upload_cleanup_exhausted, mark_upload_cleanup_succeeded,
}
use serviq.Knowledge.Cleanup.{
  max_attempts, Claimed, done, Outcome, ReplayResult, exhausted, noop_referenced, noop_succeeded,
  require_cleanup, mark_succeeded_once,
}
use serviq.Knowledge.Cleanup.Replay.{
  exhaust, failed_row, record_failed_attempt, success_row, record_success, released,
}
use serviq.Knowledge.Cleanup.Safety.{require_inv}

-- The upload of a cleanup holds no quota any more.
abbrev pub IsReleased : ℕ → ℕ → Db → Type 0
IsReleased t id db = find_where (linked_to t id) db.reservations ≡ none

-- What a failed attempt means for the hold: it is released only where the object turned out to
-- be referenced or deleted, and is untouched otherwise.
abbrev pub HoldAfter : ℕ → ℕ → Outcome → Db → Db → Type 0
HoldAfter t id noop_referenced db db' = IsReleased t id db'
HoldAfter t id noop_succeeded db db' = IsReleased t id db'
HoldAfter t id Outcome.succeeded db db' = IsReleased t id db'
HoldAfter t id _ db db' = db'.reservations ≡ db.reservations

released_inv :
    (t id : ℕ) (o : Outcome) (c : KnowledgeUploadCleanup) (r : ReplayResult) (db db' : Db)
    → released t id o c db ≡ ok (done r, db')
    → (r.outcome ≡ o) × IsReleased t id db'
unfolding release_upload_reservation_for_cleanup
released_inv t id o c r db db' h = (
  ground (arith, h),
  ground (arith, h, find_where-delete_where_self (linked_to t id) db.reservations),
)

exhaust_inv :
    (t id : ℕ) (code : String) (now : ℕ) (c : KnowledgeUploadCleanup) (r : ReplayResult)
    (db db' : Db)
    → exhaust t id code now c db ≡ ok (done r, db')
    → (r.outcome ≡ exhausted) × (db'.reservations ≡ db.reservations)
unfolding exhaust mark_upload_cleanup_exhausted
exhaust_inv t id code now c r db db' h = elim (Bool-cases (is_unresolved c.status)) [
  | inl unresolved ↦ ground (arith, unresolved)
  | inr resolved ↦ ground (arith, resolved)
]

failed_row_hold :
    (t id : ℕ) (code : String) (now : ℕ) (c : KnowledgeUploadCleanup) (r : ReplayResult)
    (db db' : Db)
    → failed_row t id code now c db ≡ ok (done r, db')
    → HoldAfter t id r.outcome db db'
unfolding failed_row
failed_row_hold t id code now c r db db' h = elim (if_inv (is_referenced c.status) _ _ db _ h) [
  | inl (a, p) ↦ let (o, k) = released_inv t id _ c r db db' p in rw o k
  | inr (a, p) ↦ elim (if_inv (is_succeeded c.status) _ _ db _ p) [
    | inl (b, q) ↦ let (o, k) = released_inv t id _ c r db db' q in rw o k
    | inr (b, q) ↦ elim (if_inv (is_exhausted c.status) _ _ db _ q) [
      | inl (d, x) ↦ ground (arith, x)
      | inr (d, x) ↦ elim (if_inv (leb max_attempts c.attempt_count) _ _ db _ x) [
        | inl (many, y) ↦ let (o, k) = exhaust_inv t id code now c r db db' y in rw o k
        | inr (few, y) ↦ ground (arith, y)
      ]
    ]
  ]
]

-- A failed attempt that ends in a retry or in exhaustion leaves every reservation as it was, so
-- the bytes stay charged; where the object turned out referenced or deleted, the hold is gone.
pub failed_attempt_hold :
    (t id : ℕ) (code : String) (now : ℕ) (r : ReplayResult) (db db' : Db)
    → record_failed_attempt t id code now db ≡ (ok (done r), db')
    → HoldAfter t id r.outcome db db'
unfolding record_failed_attempt
failed_attempt_hold t id code now r db db' h =
    elim (transaction_cases (require_cleanup t id >>= failed_row t id code now) db) [
      | inl (e, failed, undone) ↦ cc
      | inr (a, db1, ran, committed) ↦
          let eq : ok (a, db1) ≡ ok (done r, db') = ground (arith, committed, h) in
          let (c, found, p) = require_inv t id (failed_row t id code now) db (a, db1) ran in
          failed_row_hold t id code now c r db db' (p ∙ eq)
    ]

find-put :
    (p : KnowledgeUploadCleanup → Bool) (row : KnowledgeUploadCleanup)
    (xs : List KnowledgeUploadCleanup) (c : KnowledgeUploadCleanup)
    → find_where p xs ≡ some c
    → p row ≡ true
    → find_where p (update_where p (λ _. row) xs) ≡ some row
find-put p row [] c h k = ground arith
find-put p row (x ∷ xs) c h k = ground (arith, h, k, find-put p row xs c)

mark_once_inv :
    (t id now : ℕ) (c : KnowledgeUploadCleanup) (db db' : Db)
    → get_upload_cleanup_for_update t id db ≡ some c
    → mark_succeeded_once t id now c db ≡ ok (tt, db')
    → (row : KnowledgeUploadCleanup) × (get_upload_cleanup_for_update t id db' ≡ some row)
      × (is_succeeded row.status ≡ true)
unfolding mark_succeeded_once mark_upload_cleanup_succeeded get_upload_cleanup_for_update
mark_once_inv t id now c db db' found h = elim (if_inv (is_succeeded c.status) _ _ db _ h) [
  | inl (a, p) ↦ (c, ground (arith, found, p), a)
  | inr (a, p) ↦
      let row = record c {
        status = CleanupStatus.succeeded;
        next_attempt_at = none;
        last_error_code = none;
        resolved_at = some now;
        updated_at = now;
      } in
      elim (Bool-cases (is_referenced c.status || is_exhausted c.status)) [
        | inl bad ↦ ground (arith, bad, p)
        | inr good ↦ (
          row,
          ground (
            arith,
            good,
            p,
            find-put (is_cleanup t id) row db.cleanups c found,
            find_where_holds (is_cleanup t id) db.cleanups c found,
          ),
          refl,
        )
      ]
]

-- The row of a finished obligation.
abbrev pub IsSettled : ℕ → ℕ → Db → Type 0
IsSettled t id db =
    (row : KnowledgeUploadCleanup) × (get_upload_cleanup_for_update t id db ≡ some row)
    × (is_succeeded row.status || is_referenced row.status ≡ true)

success_row_settles :
    (t id now : ℕ) (c : KnowledgeUploadCleanup) (x : Claimed) (db db' : Db)
    → get_upload_cleanup_for_update t id db ≡ some c
    → success_row t id now c db ≡ ok (x, db')
    → IsReleased t id db' × IsSettled t id db'
unfolding success_row release_upload_reservation_for_cleanup get_upload_cleanup_for_update
success_row_settles t id now c x db db' found h =
    elim (if_inv (is_referenced c.status) _ _ db _ h) [
      | inl (a, p) ↦ (
        ground (arith, p, find_where-delete_where_self (linked_to t id) db.reservations),
        (c, ground (arith, p, found), ground (arith, a)),
      )
      | inr (a, p) ↦
          let (u, db1, marked, rest) = bind_inv (mark_succeeded_once t id now c) _ db (x, db') p in
          let (row, now_found, ended) = mark_once_inv t id now c db db1 found marked in
          (
            ground (arith, rest, find_where-delete_where_self (linked_to t id) db1.reservations),
            (row, ground (arith, rest, now_found), ground (arith, ended)),
          )
    ]

-- When the transaction after a delete commits, the row is succeeded or referenced and the upload
-- holds no quota.
pub success_settles :
    (t id now : ℕ) (x : Claimed) (db db' : Db)
    → record_success t id now db ≡ (ok x, db')
    → IsReleased t id db' × IsSettled t id db'
unfolding record_success
success_settles t id now x db db' h =
    elim (transaction_cases (require_cleanup t id >>= success_row t id now) db) [
      | inl (e, failed, undone) ↦ cc
      | inr (a, db1, ran, committed) ↦
          let eq : ok (a, db1) ≡ ok (x, db') = ground (arith, committed, h) in
          let (c, found, p) = require_inv t id (success_row t id now) db (a, db1) ran in
          success_row_settles t id now c x db db' found (p ∙ eq)
    ]
