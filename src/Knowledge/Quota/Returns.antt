-- ===== src/Knowledge/Quota/Returns.antt =====
-- A reservation that is taken and given back, by services/api/app/modules/knowledge/quota.py.
use serviq.Common.{
  ℕ, ◌+◌, ◌≤◌, ◌≡◌, ◌∙◌, ap, sym, inl, inr, refl, false, List, [], ◌∷◌, ◌++◌, arith, ltb, none,
  count_where, sum_where, find_where-delete_where_self, delete_where, Bool-cases, ==_refl,
}
use serviq.Knowledge.Rows.{Db, KnowledgeUploadReservation}
use serviq.Knowledge.Tx.{ok, ◌>>◌, pure, bind_inv, transaction_cases}
use serviq.Knowledge.Repository.{
  reservation_bytes, is_expired_unlinked, is_held, is_active, is_reservation, earliest_lease,
  clashes, KnowledgeQuotaUsage, get_knowledge_quota_usage, add_upload_reservation, max_file_bytes,
  find_reservation, release_upload_reservation,
}
use serviq.Knowledge.Quota.{
  upload_lease, ReservationClaim, check_capacity, begin_admission, reserve_body,
  reserve_file_upload, release_unlinked_reservation,
}
use serviq.Knowledge.Quota.Limits.{
  purged, with_row, new_row, begin_admission_inv, check_capacity_inv, reserve_cases,
}

-- Expired unlinked rows count for nothing at any later time.
module _ (t now later : ℕ) (le : now ≤ later) where
  purged-held :
      (rs : List KnowledgeUploadReservation)
      → count_where (is_held t later) (delete_where (is_expired_unlinked t now) rs)
        ≡ count_where (is_held t later) rs
  purged-held [] = refl
  purged-held (r ∷ rs) = ground (arith, le, purged-held rs)

  purged-bytes :
      (rs : List KnowledgeUploadReservation)
      → sum_where (is_held t later) reservation_bytes (delete_where (is_expired_unlinked t now) rs)
        ≡ sum_where (is_held t later) reservation_bytes rs
  purged-bytes [] = refl
  purged-bytes (r ∷ rs) = ground (arith, le, purged-bytes rs)

  purged-active :
      (rs : List KnowledgeUploadReservation)
      → count_where (is_active t later) (delete_where (is_expired_unlinked t now) rs)
        ≡ count_where (is_active t later) rs
  purged-active [] = refl
  purged-active (r ∷ rs) = ground (arith, le, purged-active rs)

  purged-earliest :
      (rs : List KnowledgeUploadReservation)
      → earliest_lease t later (delete_where (is_expired_unlinked t now) rs)
        ≡ earliest_lease t later rs
  unfolding earliest_lease
  purged-earliest [] = refl
  purged-earliest (r ∷ rs) = ground (arith, le, purged-earliest rs)

  purged-usage :
      (db : Db)
      → get_knowledge_quota_usage t later (purged t now db) ≡ get_knowledge_quota_usage t later db
  unfolding get_knowledge_quota_usage
  purged-usage db =
      rw
        (
          purged-held db.reservations,
          purged-bytes db.reservations,
          purged-active db.reservations,
          purged-earliest db.reservations,
        )
        refl

-- A fresh row that is added and then deleted leaves the list as it was.
delete_added :
    (t id : ℕ) (row : KnowledgeUploadReservation) (rs : List KnowledgeUploadReservation)
    → row.id ≡ id
    → row.tenant_id ≡ t
    → ltb 0 (count_where (clashes row) rs) ≡ false
    → delete_where (is_reservation t id) (rs ++ row ∷ []) ≡ rs
delete_added t id row [] same mine fresh = ground (arith, same, mine, ==_refl t, ==_refl id)
delete_added t id row (r ∷ rs) same mine fresh =
    ground (arith, same, mine, fresh, delete_added t id row rs same mine)

insert_fresh :
    (t source bytes id now : ℕ) (d db' : Db)
    → add_upload_reservation id t source bytes (now + upload_lease) now d ≡ ok (tt, db')
    → ltb 0 (count_where (clashes (new_row t source bytes id now)) d.reservations) ≡ false
unfolding add_upload_reservation
insert_fresh t source bytes id now d db' k = ground (arith, k)

reserve_body_fresh :
    (t source bytes id now : ℕ) (db db' : Db)
    → reserve_body t source bytes id now db ≡ ok (tt, db')
    → ltb 0 (count_where (clashes (new_row t source bytes id now)) (purged t now db).reservations)
      ≡ false
unfolding reserve_body
reserve_body_fresh t source bytes id now db db' h =
    let (a, db1, begun, rest) = bind_inv (begin_admission t now) _ db (tt, db') h in
    let usage : KnowledgeQuotaUsage = get_knowledge_quota_usage t now db1 in
    let (b, db2, checked, added) = bind_inv (check_capacity usage bytes now) _ db1 (tt, db') rest in
    let (purge, known) = begin_admission_inv t now db db1 begun in
    let (room, same) = check_capacity_inv usage bytes now db1 db2 checked in
    at_insert db2 (same ∙ purge) added
  where
    at_insert :
        (d : Db)
        → d ≡ purged t now db
        → add_upload_reservation id t source bytes (now + upload_lease) now d ≡ ok (tt, db')
        → ltb 0
            (count_where (clashes (new_row t source bytes id now)) (purged t now db).reservations)
          ≡ false
    at_insert d e k =
        ap (λ x. ltb 0 (count_where (clashes (new_row t source bytes id now)) x.reservations))
          (sym e)
        ∙ insert_fresh t source bytes id now d db' k

reserve_fresh :
    (t source bytes id now : ℕ) (db : Db) (claim : ReservationClaim)
    → (reserve_file_upload t source bytes id now db).0 ≡ ok claim
    → ltb 0 (count_where (clashes (new_row t source bytes id now)) (purged t now db).reservations)
      ≡ false
unfolding reserve_file_upload
reserve_fresh t source bytes id now db claim h = elim (Bool-cases (ltb max_file_bytes bytes)) [
  | inl large ↦ absurd (cc (rw large at h))
  | inr fits ↦
      let body = reserve_body t source bytes id now in
      elim (transaction_cases (body >> pure granted) db) [
        | inl (e, failed, refused) ↦ absurd (cc (rw (fits, refused) at h))
        | inr (c, db', done, committed) ↦
            let (a, db1, ran, kept) = bind_inv body (λ _. pure granted) db (c, db') done in
            reserve_body_fresh t source bytes id now db db1 ran
      ]
]
  where
    granted : ReservationClaim
    granted = record {
      reservation_id = id;
      source_id = source;
      reserved_bytes = bytes;
      lease_expires_at = now + upload_lease;
    }

released_row :
    (t source bytes id now : ℕ) (d : Db)
    → ltb 0 (count_where (clashes (new_row t source bytes id now)) d.reservations) ≡ false
    → (release_unlinked_reservation t id (with_row (new_row t source bytes id now) d)).1 ≡ d
unfolding release_unlinked_reservation release_upload_reservation
released_row t source bytes id now d fresh =
    ap (λ rs. record d { reservations = rs })
      (delete_added t id (new_row t source bytes id now) d.reservations refl refl fresh)

returned :
    (t source bytes id now : ℕ) (db : Db) (claim : ReservationClaim)
    → (reserve_file_upload t source bytes id now db).0 ≡ ok claim
    → (release_unlinked_reservation t id (reserve_file_upload t source bytes id now db).1).1
      ≡ purged t now db
returned t source bytes id now db claim h = elim (reserve_cases t source bytes id now db) [
  | inl (e, refused) ↦ absurd (cc (refused, h))
  | inr (c, room, known, done) ↦
      ap (λ x. (release_unlinked_reservation t id x.1).1) done
      ∙ released_row t source bytes id now (purged t now db)
          (reserve_fresh t source bytes id now db claim h)
]

no_row : (t id : ℕ) (d : Db) → find_reservation t id (release_unlinked_reservation t id d).1 ≡ none
unfolding release_unlinked_reservation release_upload_reservation find_reservation
no_row t id d = find_where-delete_where_self (is_reservation t id) d.reservations

-- A reservation that is granted and released again leaves no trace: at any time from then on the
-- tenant's usage (charged sources and bytes, running uploads and the first lease to end) is what it
-- would have been without the two, no row with its id is left, and sources, cleanups and the
-- outbox are as before.
pub release-reserve :
    (t source bytes id now later : ℕ) (db : Db) (claim : ReservationClaim)
    → (reserve_file_upload t source bytes id now db).0 ≡ ok claim
    → now ≤ later
    → let db' =
        (release_unlinked_reservation t id (reserve_file_upload t source bytes id now db).1).1 in
      (get_knowledge_quota_usage t later db' ≡ get_knowledge_quota_usage t later db)
      × (find_reservation t id db' ≡ none)
      × (db'.sources ≡ db.sources)
      × (db'.cleanups ≡ db.cleanups)
      × (db'.outbox ≡ db.outbox)
release-reserve t source bytes id now later db claim h le =
    let e = returned t source bytes id now db claim h in
    (
      ap (get_knowledge_quota_usage t later) e ∙ purged-usage t now later le db,
      no_row t id (reserve_file_upload t source bytes id now db).1,
      ap (λ d. d.sources) e,
      ap (λ d. d.cleanups) e,
      ap (λ d. d.outbox) e,
    )
