-- ===== src/Knowledge/Quota/Release.antt =====
-- What the release of a reservation gives back to the tenant.
use serviq.Common.{
  ℕ, ◌+◌, ◌≤◌, ◌≡◌, ◌≢◌, ◌⊎◌, inl, inr, refl, none, some, false, Bool-cases, List, [], ◌∷◌, arith,
  find_where, delete_where, sum_where-delete_found, count_where-delete_found,
  find_where-delete_where_self,
}
use serviq.Knowledge.Rows.{Db, KnowledgeUploadReservation}
use serviq.Knowledge.Repository.{
  reservation_bytes, is_held, is_reservation, find_reservation, get_knowledge_quota_usage,
  release_upload_reservation,
}
use serviq.Knowledge.Quota.{charged_bytes, charged_sources, release_unlinked_reservation}

find_kept :
    (t id j : ℕ) (rs : List KnowledgeUploadReservation)
    → id ≢ j
    → find_where (is_reservation t j) (delete_where (is_reservation t id) rs)
      ≡ find_where (is_reservation t j) rs
find_kept t id j [] h = refl
find_kept t id j (r ∷ rs) h = ground (arith, find_kept t id j rs h)

-- A released reservation is gone, whether a cleanup was linked to it or not and whether it was
-- expired or not; every other reservation of the tenant is found as before; and where the row was
-- held, the tenant's charges fall by at least one source and the bytes of the row.
pub release_gives_back :
    (t id j now : ℕ) (r : KnowledgeUploadReservation) (db : Db)
    → find_reservation t id db ≡ some r
    → id ≢ j
    → let db' = (release_unlinked_reservation t id db).1 in
      let before = get_knowledge_quota_usage t now db in
      let after = get_knowledge_quota_usage t now db' in
      (find_reservation t id db' ≡ none)
      × (find_reservation t j db' ≡ find_reservation t j db)
      × ((is_held t now r ≡ false)
          ⊎ ((charged_sources after + 1 ≤ charged_sources before)
              × (charged_bytes after + r.reserved_bytes ≤ charged_bytes before)))
unfolding release_unlinked_reservation release_upload_reservation find_reservation
    get_knowledge_quota_usage
release_gives_back t id j now r db found other = (
  find_where-delete_where_self (is_reservation t id) db.reservations,
  find_kept t id j db.reservations other,
  elim (Bool-cases (is_held t now r)) [
    | inr free ↦ inl free
    | inl held ↦ inr (
      omega (
        arith,
        count_where-delete_found (is_held t now) (is_reservation t id) db.reservations r found held,
      ),
      omega (
        arith,
        sum_where-delete_found (is_held t now) (is_reservation t id) reservation_bytes
            db.reservations r found held,
      ),
    )
  ],
)
