-- ===== src/Knowledge/Service/Uploads.antt =====
-- `create_file_source` of services/api/app/modules/knowledge/service.py: what is on record when
-- the raw object is written.
use text.Mathlib.TextPositions.{eq_refl}
use serviq.Common.{
  ℕ, ◌≡◌, refl, String, Option, none, some, Bool, true, false, ◌&&◌, List, [], ◌∷◌, arith, inl, inr,
  str_eq, any, any_last, find_where, update_where, if◌then◌else◌, Bool-cases,
}
use serviq.Knowledge.Rows.{Db, KnowledgeUploadReservation, KnowledgeUploadCleanup}
use serviq.Knowledge.Tx.{Result, ok, err, transaction, bind_inv, transaction_cases}
use serviq.Knowledge.Cleanup.{raw_key_value, prepared_cleanup_due_at}
use serviq.Knowledge.Repository.{is_reservation, linked_to, bind_upload_reservation_to_cleanup}
use serviq.Knowledge.Repository.Cleanups.{
  is_prepared, is_cleanup, new_cleanup, add_upload_cleanup_intent,
}
use serviq.Knowledge.Quota.{ReservationClaim}
use serviq.Knowledge.Service.{
  is_permitted, FileRequest, Around, Upload, intent_body, create_file_source, after_intent,
  after_finalize, after_validation, put_and_commit, after_commit,
}

-- A prepared obligation of the tenant for this key.
abbrev pub obliges : ℕ → ℕ → String → KnowledgeUploadCleanup → Bool
obliges t id key c = is_cleanup t id c && (is_prepared c.status && str_eq c.object_key key)

-- The key was written while its obligation was on record and a reservation was linked to it.
abbrev is_recorded : ℕ → ℕ → String × Db → Bool
is_recorded t cleanup (key, db) =
    any (obliges t cleanup key) db.cleanups && any (linked_to t cleanup) db.reservations

abbrev is_safe_put : ℕ → ℕ → Option (String × Db) → Bool
is_safe_put t cleanup none = true
is_safe_put t cleanup (some w) = is_recorded t cleanup w

any_updated :
    {A : Type 0} (p q : A → Bool) (f : A → A) (xs : List A) (a : A)
    → ((x : A) → p x ≡ true → q (f x) ≡ true)
    → find_where p xs ≡ some a
    → any q (update_where p f xs) ≡ true
any_updated p q f [] a h e = absurd (cc)
any_updated p q f (x ∷ xs) a h e = ground (arith, h x, any_updated p q f xs a h)

add_upload_cleanup_intent-obliges :
    (id t source object : ℕ) (key : String) (due now : ℕ) (db db' : Db) (u : Unit {0})
    → add_upload_cleanup_intent id t source object key due now db ≡ ok (u, db')
    → any (obliges t id key) db'.cleanups ≡ true
unfolding add_upload_cleanup_intent
add_upload_cleanup_intent-obliges id t source object key due now db db' u h =
    let row = new_cleanup id t source object key due now in
    ground (arith, h, any_last (obliges t id key) db.cleanups row (ground (arith, eq_refl key)))

pub bind_upload_reservation-linked :
    (t id cleanup now : ℕ) (db db' : Db) (u : Unit {0})
    → bind_upload_reservation_to_cleanup t id cleanup now db ≡ ok (u, db')
    → (any (linked_to t cleanup) db'.reservations ≡ true) × (db'.cleanups ≡ db.cleanups)
unfolding bind_upload_reservation_to_cleanup
bind_upload_reservation-linked t id cleanup now db db' u h =
    found (find_where (is_reservation t id) db.reservations) refl h
  where
    link : KnowledgeUploadReservation → KnowledgeUploadReservation
    link q = record q { cleanup_id = some cleanup; updated_at = now }

    found :
        (o : Option KnowledgeUploadReservation)
        → find_where (is_reservation t id) db.reservations ≡ o
        → bind_upload_reservation_to_cleanup t id cleanup now db ≡ ok (u, db')
        → (any (linked_to t cleanup) db'.reservations ≡ true) × (db'.cleanups ≡ db.cleanups)
    found none e k = ground (arith, e, k)
    found (some r) e k =
        let marked =
          any_updated (is_reservation t id) (linked_to t cleanup) link db.reservations r
            (λ q b. ground (arith, b)) e in
        ground (arith, e, k, marked)

intent_body-is_recorded :
    (a : Around) (t : ℕ) (r : ReservationClaim) (key : String) (db db' : Db) (u : Unit {0})
    → intent_body a t r key db ≡ ok (u, db')
    → is_recorded t a.cleanup_id (key, db') ≡ true
unfolding intent_body
intent_body-is_recorded a t r key db db' u h =
    let (v, db1, added, linked) =
      bind_inv
        (add_upload_cleanup_intent a.cleanup_id t r.source_id a.object_id key
          (prepared_cleanup_due_at a.prepared_at) a.prepared_at)
        _ db (u, db') h in
    let (marked, same) =
      bind_upload_reservation-linked t r.reservation_id a.cleanup_id a.prepared_at db1 db' u
        linked in
    let here =
      add_upload_cleanup_intent-obliges a.cleanup_id t r.source_id a.object_id key
        (prepared_cleanup_due_at a.prepared_at) a.prepared_at db db1 v added in
    ground (arith, marked, same, here)

either-is_safe_put :
    (t cleanup : ℕ) (b : Bool) (x y : Upload)
    → is_safe_put t cleanup x.put ≡ true
    → is_safe_put t cleanup y.put ≡ true
    → is_safe_put t cleanup (if b then x else y).put ≡ true
either-is_safe_put t cleanup true x y p q = p
either-is_safe_put t cleanup false x y p q = q

module _ (a : Around) (user t : ℕ) (request : FileRequest) where
  after_commit-is_safe_put :
      (put : Option (String × Db)) (end : Result (Unit {0}) × Db)
      → is_safe_put t a.cleanup_id put ≡ true
      → is_safe_put t a.cleanup_id (after_commit a t put end).put ≡ true
  after_commit-is_safe_put put (ok u, db) h = h
  after_commit-is_safe_put put (err e, db) h = h

  put_and_commit-is_safe_put :
      (r : ReservationClaim) (key : String) (size : ℕ) (db : Db)
      → is_recorded t a.cleanup_id (key, db) ≡ true
      → is_safe_put t a.cleanup_id (put_and_commit a user t request r key size db).put ≡ true
  unfolding put_and_commit
  put_and_commit-is_safe_put r key size db h =
      either-is_safe_put t a.cleanup_id a.put_succeeds _ _
        (after_commit-is_safe_put (some (key, db)) _ h) h

  after_intent-is_safe_put :
      (r : ReservationClaim) (key : String) (size : ℕ) (db : Db)
      → is_safe_put t a.cleanup_id
          (after_intent a user t request r key size (transaction (intent_body a t r key) db)).put
        ≡ true
  after_intent-is_safe_put r key size db = elim (transaction_cases (intent_body a t r key) db) [
    | inl (e, failed, undone) ↦ rw undone refl
    | inr (u, db', ran, committed) ↦
        rw committed (
          put_and_commit-is_safe_put r key size db'
            (intent_body-is_recorded a t r key db db' u ran))
  ]

  after_finalize-is_safe_put :
      (admission : ReservationClaim) (size : ℕ) (end : Result ReservationClaim × Db)
      → is_safe_put t a.cleanup_id (after_finalize a user t request admission size end).put ≡ true
  after_finalize-is_safe_put admission size (err e, db) = refl
  after_finalize-is_safe_put admission size (ok r, db) =
      after_intent-is_safe_put r (raw_key_value a.uuid_text t r.source_id a.object_id) size
        (a.others 1 db)

  after_validation-is_safe_put :
      (admission : ReservationClaim) (o : Option ℕ) (db : Db)
      → is_safe_put t a.cleanup_id (after_validation a user t request admission o db).put ≡ true
  after_validation-is_safe_put admission none db = refl
  after_validation-is_safe_put admission (some size) db =
      after_finalize-is_safe_put admission size _

  created_is_safe_put :
      (admission : ReservationClaim) (db : Db)
      → is_safe_put t a.cleanup_id (create_file_source a user t request admission db).put ≡ true
  unfolding create_file_source
  created_is_safe_put admission db = elim (Bool-cases (is_permitted a.directory user t)) [
    | inl allowed ↦ rw allowed (after_validation-is_safe_put admission a.validated db)
    | inr refused ↦ rw refused refl
  ]

  -- Where an upload writes its raw object under a key, the tables committed just before hold a
  -- prepared cleanup of the tenant for that key and a reservation that is linked to this cleanup,
  -- whatever other sessions commit between the transactions.
  pub create_file_source-is_safe_put :
      (admission : ReservationClaim) (db before : Db) (key : String)
      → (create_file_source a user t request admission db).put ≡ some (key, before)
      → (any (obliges t a.cleanup_id key) before.cleanups ≡ true)
        × (any (linked_to t a.cleanup_id) before.reservations ≡ true)
  create_file_source-is_safe_put admission db before key h =
      let safe : is_safe_put t a.cleanup_id (some (key, before)) ≡ true =
        rw h at (created_is_safe_put admission db) in
      (ground (arith, safe), ground (arith, safe))
