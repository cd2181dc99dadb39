-- ===== src/Knowledge/Quota/Limits.antt =====
-- What an admitted reservation promises: the limits of the tenant hold over all its rows.
use serviq.Common.{
  ℕ, ◌+◌, ◌≤◌, ◌<◌, ◌≡◌, ◌⊎◌, inl, inr, refl, ap, ◌∙◌, none, Bool, false, List, [], ◌∷◌, ◌++◌,
  arith, leb, ltb, count_where, sum_where, delete_where, count_where-append, sum_where-append,
  Bool-cases,
}
use serviq.Knowledge.Rows.{Db, KnowledgeUploadReservation}
use serviq.Knowledge.Tx.{
  Error, ok, err, ◌>>◌, pure, raise_if_inv, bind_inv, transaction_cases, value_error,
}
use serviq.Knowledge.Repository.{
  source_of, reservation_of, source_bytes, reservation_bytes, is_expired_unlinked, is_active,
  KnowledgeQuotaUsage, lock_tenant_for_knowledge_quota, delete_expired_unlinked_upload_reservations,
  list_unknown_file_source_sizes, get_knowledge_quota_usage, add_upload_reservation, max_file_bytes,
}
use serviq.Knowledge.Quota.{
  source_limit, byte_limit, concurrent_limit, upload_lease, charged_sources, charged_bytes,
  ReservationClaim, any_unknown, check_capacity, begin_admission, reserve_body, reserve_file_upload,
}
use serviq.Knowledge.Quota.Counts.{held-count, held-sum, active_later}

-- Every row counts here, whatever the clock says, so this is the strongest reading of the limits.
pub record IsWithinQuota (t : ℕ) (db : Db) : Type 0 where
  pub sources :
      count_where (source_of t) db.sources + count_where (reservation_of t) db.reservations
      ≤ source_limit
  pub bytes :
      sum_where (source_of t) source_bytes db.sources
        + sum_where (reservation_of t) reservation_bytes db.reservations
      ≤ byte_limit

-- The state after the expired unlinked reservations of a tenant are deleted.
abbrev pub purged : ℕ → ℕ → Db → Db
purged t now db = record db {
  reservations = delete_where (is_expired_unlinked t now) db.reservations;
}

delete_where_none :
    (p : KnowledgeUploadReservation → Bool) (rs : List KnowledgeUploadReservation)
    → ltb 0 (count_where p rs) ≡ false
    → delete_where p rs ≡ rs
delete_where_none p [] h = refl
delete_where_none p (r ∷ rs) h = ground (arith, delete_where_none p rs)

pub delete_expired_lem :
    (t now : ℕ) (db : Db)
    → delete_expired_unlinked_upload_reservations t now db
      ≡ ok (count_where (is_expired_unlinked t now) db.reservations, purged t now db)
unfolding delete_expired_unlinked_upload_reservations
delete_expired_lem t now db =
    ground (arith, delete_where_none (is_expired_unlinked t now) db.reservations)

pub begin_admission_inv :
    (t now : ℕ) (db db' : Db)
    → begin_admission t now db ≡ ok (tt, db')
    → (db' ≡ purged t now db) × (any_unknown (list_unknown_file_source_sizes t db.sources) ≡ false)
unfolding begin_admission lock_tenant_for_knowledge_quota
begin_admission_inv t now db db' h = ground (arith, delete_expired_lem t now db)

abbrev pub new_row : ℕ → ℕ → ℕ → ℕ → ℕ → KnowledgeUploadReservation
new_row t source bytes id now = record {
  id = id;
  tenant_id = t;
  source_id = source;
  reserved_bytes = bytes;
  cleanup_id = none;
  lease_expires_at = now + upload_lease;
  created_at = now;
  updated_at = now;
}

abbrev pub with_row : KnowledgeUploadReservation → Db → Db
with_row r db = record db { reservations = db.reservations ++ r ∷ [] }

-- The checks that an admitted reservation has passed.
pub record HasRoom (u : KnowledgeQuotaUsage) (bytes : ℕ) : Type 0 where
  pub source_room : charged_sources u < source_limit
  pub byte_room : charged_bytes u + bytes ≤ byte_limit
  pub upload_room : u.active_uploads < concurrent_limit

pub check_capacity_inv :
    (u : KnowledgeQuotaUsage) (bytes now : ℕ) (db db' : Db)
    → check_capacity u bytes now db ≡ ok (tt, db')
    → HasRoom u bytes × (db' ≡ db)
unfolding check_capacity
check_capacity_inv u bytes now db db' h =
    let (a, p) = raise_if_inv (leb source_limit (charged_sources u)) _ _ db (tt, db') h in
    let (b, q) = raise_if_inv (ltb byte_limit (charged_bytes u + bytes)) _ _ db (tt, db') p in
    ground (arith, a, b, q)

pub add_upload_reservation_inv :
    (id t source bytes now : ℕ) (db db' : Db)
    → add_upload_reservation id t source bytes (now + upload_lease) now db ≡ ok (tt, db')
    → db' ≡ with_row (new_row t source bytes id now) db
unfolding add_upload_reservation
add_upload_reservation_inv id t source bytes now db db' h = ground arith

pub reserve_body_inv :
    (t source bytes id now : ℕ) (db db' : Db)
    → reserve_body t source bytes id now db ≡ ok (tt, db')
    → HasRoom (get_knowledge_quota_usage t now (purged t now db)) bytes
      × (any_unknown (list_unknown_file_source_sizes t db.sources) ≡ false)
      × (db' ≡ with_row (new_row t source bytes id now) (purged t now db))
unfolding reserve_body
reserve_body_inv t source bytes id now db db' h =
    let (a, db1, begun, rest) = bind_inv (begin_admission t now) _ db (tt, db') h in
    let usage : KnowledgeQuotaUsage = get_knowledge_quota_usage t now db1 in
    let (b, db2, checked, added) = bind_inv (check_capacity usage bytes now) _ db1 (tt, db') rest in
    let (purge, known) = begin_admission_inv t now db db1 begun in
    let (room, same) = check_capacity_inv usage bytes now db1 db2 checked in
    let row = add_upload_reservation_inv id t source bytes now db2 db' added in
    (rw (← purge) room, known, row ∙ ap (with_row (new_row t source bytes id now)) (same ∙ purge))

pub with_row-IsWithinQuota :
    (t source bytes id now : ℕ) (db : Db)
    → HasRoom (get_knowledge_quota_usage t now (purged t now db)) bytes
    → IsWithinQuota t (with_row (new_row t source bytes id now) (purged t now db))
unfolding get_knowledge_quota_usage
with_row-IsWithinQuota t source bytes id now db room =
    let rs = delete_where (is_expired_unlinked t now) db.reservations in
    let row : List KnowledgeUploadReservation = new_row t source bytes id now ∷ [] in
    ground (
      arith,
      held-count t now db.reservations,
      held-sum t now db.reservations,
      count_where-append (reservation_of t) rs row,
      sum_where-append (reservation_of t) reservation_bytes rs row,
      room.source_room,
      room.byte_room,
    )

-- A reservation is refused and changes nothing, or it passed every check and added its row.
pub reserve_cases :
    (t source bytes id now : ℕ) (db : Db)
    → ((e : Error) × (reserve_file_upload t source bytes id now db ≡ (err e, db)))
      ⊎ ((claim : ReservationClaim) × HasRoom
            (get_knowledge_quota_usage t now (purged t now db))
            bytes
          × (any_unknown (list_unknown_file_source_sizes t db.sources) ≡ false)
          × (reserve_file_upload t source bytes id now db
              ≡ (ok claim, with_row (new_row t source bytes id now) (purged t now db))))
unfolding reserve_file_upload
reserve_cases t source bytes id now db = elim (Bool-cases (ltb max_file_bytes bytes)) [
  | inl large ↦ inl (value_error, rw large)
  | inr fits ↦
      let body = reserve_body t source bytes id now in
      let claim : ReservationClaim = record {
        reservation_id = id;
        source_id = source;
        reserved_bytes = bytes;
        lease_expires_at = now + upload_lease;
      } in
      elim (transaction_cases (body >> pure claim) db) [
        | inl (e, failed, refused) ↦ inl (e, rw fits refused)
        | inr (c, db', done, committed) ↦
            let (a, db1, ran, kept) = bind_inv body _ db (c, db') done in
            let (room, known, final) = reserve_body_inv t source bytes id now db db1 ran in
            inr (c, room, known, ground (arith, fits, committed, kept, final))
      ]
]

-- A successful reservation leaves the tenant within its source and byte quota, from any state.
pub reserve-IsWithinQuota :
    (t source bytes id now : ℕ) (db : Db) (claim : ReservationClaim)
    → (reserve_file_upload t source bytes id now db).0 ≡ ok claim
    → IsWithinQuota t (reserve_file_upload t source bytes id now db).1
reserve-IsWithinQuota t source bytes id now db claim h =
    elim (reserve_cases t source bytes id now db) [
      | inl (e, refused) ↦ cc (refused, h)
      | inr (c, room, known, done) ↦ rw done (with_row-IsWithinQuota t source bytes id now db room)
    ]

-- After a successful reservation at `now` the tenant has at most three uploads whose lease is
-- running, at `now` and at every later time before the next change of its rows.
pub reserve-concurrent-le :
    (t source bytes id now later : ℕ) (db : Db) (claim : ReservationClaim)
    → (reserve_file_upload t source bytes id now db).0 ≡ ok claim
    → now ≤ later
    → let db' = (reserve_file_upload t source bytes id now db).1 in
      (get_knowledge_quota_usage t later db').active_uploads ≤ concurrent_limit
unfolding get_knowledge_quota_usage
reserve-concurrent-le t source bytes id now later db claim h le =
    let rs = delete_where (is_expired_unlinked t now) db.reservations in
    let row : List KnowledgeUploadReservation = new_row t source bytes id now ∷ [] in
    elim (reserve_cases t source bytes id now db) [
      | inl (e, refused) ↦ cc (refused, h)
      | inr (c, room, known, done) ↦ rw done (
          ground (
            arith,
            active_later t now later (rs ++ row) le,
            count_where-append (is_active t now) rs row,
            room.upload_room,
          ))
    ]
