-- ===== src/Knowledge/Quota/Finalize.antt =====
-- `finalize_file_upload_reservation`: an admission of zero bytes becomes a reservation of the
-- bytes that were received.
use serviq.Common.{
  ℕ, ◌+◌, ◌≤◌, ◌≡◌, ◌⊎◌, inl, inr, refl, some, Bool, true, not, ◌||◌, List, [], ◌∷◌, arith, ltb,
  ◌==◌, count_where, sum_where, find_where, delete_where, update_where, Bool-cases, Option-cases,
  count_where-delete_where-le,
}
use serviq.Knowledge.Rows.{Db, KnowledgeUploadReservation}
use serviq.Knowledge.Tx.{
  ok, err, Error, pure, ◌>>◌, bind_inv, raise_if_inv, transaction_cases, value_error,
  quota_unavailable,
}
use serviq.Knowledge.Repository.{
  max_file_bytes, get_knowledge_quota_usage, reservation_of, reservation_bytes, is_reservation,
  find_reservation, KnowledgeQuotaUsage, is_expired_unlinked,
}
use serviq.Knowledge.Quota.{
  ReservationClaim, byte_limit, charged_bytes, begin_admission, finalize_body, set_reserved_bytes,
  is_live_row, finalize_file_upload_reservation,
}
use serviq.Knowledge.Quota.Counts.{held-sum}
use serviq.Knowledge.Quota.Limits.{IsWithinQuota, purged, begin_admission_inv}

-- The primary key of the reservations.
abbrev pub with_id : ℕ → KnowledgeUploadReservation → Bool
with_id i r = r.id == i

abbrev pub IsKeyed : List KnowledgeUploadReservation → Type 0
IsKeyed rs = (i : ℕ) → count_where (with_id i) rs ≤ 1

-- The row with its bytes set.
abbrev pub sized : ℕ → ℕ → KnowledgeUploadReservation → KnowledgeUploadReservation
sized bytes now r = record r { reserved_bytes = bytes; updated_at = now }

module _ (t id bytes now : ℕ) where
  sum_sized_absent :
      (rs : List KnowledgeUploadReservation)
      → count_where (with_id id) rs ≡ 0
      → sum_where
          (reservation_of t)
          reservation_bytes
          (update_where (is_reservation t id) (sized bytes now) rs)
        ≡ sum_where (reservation_of t) reservation_bytes rs
  sum_sized_absent [] h = refl
  sum_sized_absent (r ∷ rs) h = ground (arith, sum_sized_absent rs)

  -- Setting the bytes of the one row that held none adds exactly those bytes.
  pub sum_sized :
      (rs : List KnowledgeUploadReservation) (r : KnowledgeUploadReservation)
      → count_where (with_id id) rs ≤ 1
      → find_where (is_reservation t id) rs ≡ some r
      → r.reserved_bytes ≡ 0
      → sum_where
          (reservation_of t)
          reservation_bytes
          (update_where (is_reservation t id) (sized bytes now) rs)
        ≡ sum_where (reservation_of t) reservation_bytes rs + bytes
  sum_sized [] r one found empty = ground arith
  sum_sized (x ∷ rs) r one found empty = ground (arith, sum_sized rs r, sum_sized_absent rs)

  pub count_sized :
      (rs : List KnowledgeUploadReservation)
      → count_where (reservation_of t) (update_where (is_reservation t id) (sized bytes now) rs)
        ≡ count_where (reservation_of t) rs
  count_sized [] = refl
  count_sized (r ∷ rs) = ground (arith, count_sized rs)

abbrev pub with_sized : ℕ → ℕ → ℕ → ℕ → Db → Db
with_sized t id bytes now db = record db {
  reservations = update_where (is_reservation t id) (sized bytes now) db.reservations;
}

finalize_body_inv :
    (t : ℕ) (admission : ReservationClaim) (bytes now : ℕ) (db db' : Db)
    → finalize_body t admission bytes now db ≡ ok (tt, db')
    → let db1 = purged t now db in
      (is_live_row admission now (find_reservation t admission.reservation_id db1) ≡ true)
      × (charged_bytes (get_knowledge_quota_usage t now db1) + bytes ≤ byte_limit)
      × (db' ≡ with_sized t admission.reservation_id bytes now db1)
unfolding finalize_body set_reserved_bytes
finalize_body_inv t admission bytes now db db' h =
    let (a, db1, begun, rest) = bind_inv (begin_admission t now) _ db (tt, db') h in
    let same : db1 ≡ purged t now db = (begin_admission_inv t now db db1 begun).0 in
    let usage : KnowledgeQuotaUsage = get_knowledge_quota_usage t now db1 in
    let live : Bool = is_live_row admission now (find_reservation t admission.reservation_id db1) in
    let (alive, p) = raise_if_inv (not live) quota_unavailable _ db1 (tt, db') rest in
    let (small, q) =
      raise_if_inv (ltb byte_limit (charged_bytes usage + bytes)) _ _ db1 (tt, db') p in
    rw (← same) (ground (arith, alive), ground (arith, small), ground (arith, q))

-- Finalizing is refused and changes nothing, or the row of the admission passed its checks and got
-- its bytes.
pub finalize_cases :
    (t : ℕ) (admission : ReservationClaim) (bytes now : ℕ) (db : Db)
    → let db1 = purged t now db in
      ((e : Error) × (finalize_file_upload_reservation t admission bytes now db ≡ (err e, db)))
      ⊎ ((claim : ReservationClaim) × (is_live_row admission now
              (find_reservation t admission.reservation_id db1)
            ≡ true)
          × (charged_bytes (get_knowledge_quota_usage t now db1) + bytes ≤ byte_limit)
          × (finalize_file_upload_reservation t admission bytes now db
              ≡ (ok claim, with_sized t admission.reservation_id bytes now db1)))
unfolding finalize_file_upload_reservation
finalize_cases t admission bytes now db =
    elim (Bool-cases (ltb max_file_bytes bytes || not (admission.reserved_bytes == 0))) [
      | inl bad ↦ inl (value_error, rw bad)
      | inr good ↦
          let body = finalize_body t admission bytes now in
          let claim : ReservationClaim = record {
            reservation_id = admission.reservation_id;
            source_id = admission.source_id;
            reserved_bytes = bytes;
            lease_expires_at = admission.lease_expires_at;
          } in
          elim (transaction_cases (body >> pure claim) db) [
            | inl (e, failed, refused) ↦ inl (e, rw good refused)
            | inr (c, db', done, committed) ↦
                let (a, db1, ran, kept) = bind_inv body _ db (c, db') done in
                let (live, small, final) = finalize_body_inv t admission bytes now db db1 ran in
                inr (c, live, small, ground (arith, good, committed, kept, final))
          ]
    ]

-- A finalized upload leaves a tenant that was within its quota within its quota, where the ids of
-- the reservations are unique.
pub finalize-IsWithinQuota :
    (t : ℕ) (admission : ReservationClaim) (bytes now : ℕ) (db : Db) (claim : ReservationClaim)
    → IsKeyed db.reservations
    → IsWithinQuota t db
    → (finalize_file_upload_reservation t admission bytes now db).0 ≡ ok claim
    → IsWithinQuota t (finalize_file_upload_reservation t admission bytes now db).1
unfolding get_knowledge_quota_usage find_reservation
finalize-IsWithinQuota t admission bytes now db claim keyed within h =
    elim (finalize_cases t admission bytes now db) [
      | inl (e, refused) ↦ cc (refused, h)
      | inr (c, live, small, done) ↦
          let rs = delete_where (is_expired_unlinked t now) db.reservations in
          let id = admission.reservation_id in
          let single : count_where (with_id id) rs ≤ 1 = omega (
            arith,
            count_where-delete_where-le (with_id id) (is_expired_unlinked t now) db.reservations,
            keyed id,
          ) in
          elim (Option-cases (find_where (is_reservation t id) rs)) [
            | inl gone ↦ ground (arith, gone, live)
            | inr (r, found) ↦ rw done (record {
              sources = omega (
                arith,
                count_sized t id bytes now rs,
                within.sources,
                count_where-delete_where-le (reservation_of t) (is_expired_unlinked t now)
                    db.reservations,
              );
              bytes = ground (
                arith,
                sum_sized t id bytes now rs r,
                held-sum t now db.reservations,
                live,
                found,
                small,
                single,
              );
            })
          ]
    ]
