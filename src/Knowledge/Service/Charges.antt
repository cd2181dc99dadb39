-- ===== src/Knowledge/Service/Charges.antt =====
-- The transaction of services/api/app/modules/knowledge/service.py that turns an admitted upload
-- into a source.
use serviq.Common.{
  ℕ, ◌≤◌, ◌≡◌, String, Option, none, some, true, not, List, [], ◌∷◌, ◌++◌, arith, inl, inr,
  delete_where, count_where-append, sum_where-append, count_where-delete_found,
  sum_where-delete_found, find_where_holds,
}
use serviq.Knowledge.Rows.{Db, KnowledgeSource, KnowledgeUploadReservation, KnowledgeUploadCleanup}
use serviq.Knowledge.Tx.{
  Result, ok, err, transaction, raise_if_inv, bind_inv, transaction_cases, runtime_error,
}
use serviq.Knowledge.Repository.{
  source_of, reservation_of, source_bytes, reservation_bytes, is_reservation, find_reservation,
  add_source, new_file_source, add_file_knowledge_source, release_upload_reservation,
}
use serviq.Knowledge.Repository.Cleanups.{
  is_prepared, get_upload_cleanup_for_update, mark_upload_cleanup_referenced,
}
use serviq.Knowledge.Quota.{ReservationClaim}
use serviq.Knowledge.Quota.Limits.{IsWithinQuota}
use serviq.Knowledge.Cleanup.{lift}
use serviq.Knowledge.Service.{FileRequest, commit_body, commit_found}

-- What a commit leaves of the rows: one source is added, and the reservation is gone.
abbrev pub Charged : ℕ → ℕ → KnowledgeSource → Db → Db → Type 0
Charged t id s db db' =
    (db'.sources ≡ db.sources ++ s ∷ [])
    × (db'.reservations ≡ delete_where (is_reservation t id) db.reservations)

add_source_inv :
    (s : KnowledgeSource) (db db' : Db) (a : Unit {0})
    → add_source s db ≡ ok (a, db')
    → record db { sources = db.sources ++ s ∷ [] } ≡ db'
add_source_inv s db db' a h = ground (arith, h)

-- The row leaves with its bytes before the source comes with its own.
swap-IsWithinQuota :
    (t id : ℕ) (s : KnowledgeSource) (row : KnowledgeUploadReservation) (db db' : Db)
    → find_reservation t id db ≡ some row
    → source_of t s ≡ true
    → source_bytes s ≤ row.reserved_bytes
    → Charged t id s db db'
    → IsWithinQuota t db
    → IsWithinQuota t db'
unfolding find_reservation
swap-IsWithinQuota t id s row db db' found mine fits (sources, reservations) q =
    let holds = find_where_holds (is_reservation t id) db.reservations row found in
    let of_t : reservation_of t row ≡ true = ground (arith, holds) in
    let added : List KnowledgeSource = s ∷ [] in
    ground (
      arith,
      sources,
      reservations,
      mine,
      fits,
      q.sources,
      q.bytes,
      count_where-append (source_of t) db.sources added,
      sum_where-append (source_of t) source_bytes db.sources added,
      count_where-delete_found (reservation_of t) (is_reservation t id) db.reservations row found
          of_t,
      sum_where-delete_found (reservation_of t) (is_reservation t id) reservation_bytes
          db.reservations row found of_t,
    )

module _ (user t : ℕ) (request : FileRequest) (r : ReservationClaim) (key : String)
    (size cleanup now : ℕ) where
  abbrev pub source_row : KnowledgeSource
  source_row =
      new_file_source r.source_id t request.source_type request.name key size request.access_scope
        user now

  commit_found-Charged :
      (o : Option KnowledgeUploadCleanup) (db db' : Db) (a : Unit {0})
      → commit_found user t request r key size cleanup now o db ≡ ok (a, db')
      → Charged t r.reservation_id source_row db db'
  unfolding add_file_knowledge_source release_upload_reservation
  commit_found-Charged none db db' a h = absurd (cc)
  commit_found-Charged (some c) db db' a h =
      let (prepared, rest) =
        raise_if_inv (not (is_prepared c.status)) runtime_error _ db (a, db') h in
      let (b, db1, adds, marked) = bind_inv (add_source source_row) _ db (a, db') rest in
      let (row, db2, lifted, stored) =
        bind_inv (lift (mark_upload_cleanup_referenced c now)) _ db1 (a, db') marked in
      let added = add_source_inv source_row db db1 b adds in
      ground
        (arith, added, stored, lift_same (mark_upload_cleanup_referenced c now) db1 db2 row lifted)
    where
      lift_same :
          (x : Result KnowledgeUploadCleanup) (d d' : Db) (row : KnowledgeUploadCleanup)
          → lift x d ≡ ok (row, d')
          → d ≡ d'
      lift_same (ok y) d d' row e = cc
      lift_same (err y) d d' row e = absurd (cc)

  -- Where the upload's reservation covers its bytes, the transaction after the PUT keeps the
  -- tenant within its quota of sources and bytes, whether it commits the source or rolls back.
  pub commit_body-IsWithinQuota :
      (row : KnowledgeUploadReservation) (db : Db)
      → find_reservation t r.reservation_id db ≡ some row
      → size ≤ row.reserved_bytes
      → IsWithinQuota t db
      → IsWithinQuota t (transaction (commit_body user t request r key size cleanup now) db).1
  unfolding commit_body
  commit_body-IsWithinQuota row db found fits q =
      elim (transaction_cases (commit_body user t request r key size cleanup now) db) [
        | inl (e, failed, undone) ↦ rw undone q
        | inr (a, db', ran, committed) ↦
            let rows =
              commit_found-Charged (get_upload_cleanup_for_update t cleanup db) db db' a ran in
            let mine : source_of t source_row ≡ true = ground arith in
            rw committed
              (swap-IsWithinQuota t r.reservation_id source_row row db db' found mine fits rows q)
      ]
