-- ===== src/Knowledge/Quota/Isolation.antt =====
-- Quota decisions of one tenant and the rows of the others.
use serviq.Common.{
  ℕ, ◌≡◌, ◌∙◌, inl, inr, ◌≢◌, refl, List, [], ◌∷◌, ◌++◌, arith, filter_where, delete_where,
}
use serviq.Knowledge.Rows.{Db, KnowledgeUploadReservation}
use serviq.Knowledge.Repository.{reservation_of, is_expired_unlinked}
use serviq.Knowledge.Quota.{reserve_file_upload}
use serviq.Knowledge.Quota.Limits.{new_row, reserve_cases}

module _ (u : ℕ) where
  filter_delete_expired :
      (t now : ℕ) (rs : List KnowledgeUploadReservation)
      → u ≢ t
      → filter_where (reservation_of u) (delete_where (is_expired_unlinked t now) rs)
        ≡ filter_where (reservation_of u) rs
  filter_delete_expired t now [] ne = refl
  filter_delete_expired t now (r ∷ rs) ne = ground (arith, filter_delete_expired t now rs ne)

  filter_append_new :
      (r : KnowledgeUploadReservation) (rs : List KnowledgeUploadReservation)
      → u ≢ r.tenant_id
      → filter_where (reservation_of u) (rs ++ r ∷ []) ≡ filter_where (reservation_of u) rs
  filter_append_new r [] ne = ground arith
  filter_append_new r (x ∷ rs) ne = ground (arith, filter_append_new r rs ne)

-- The reservations that another tenant sees.
abbrev pub visible : ℕ → Db → List KnowledgeUploadReservation
visible u db = filter_where (reservation_of u) db.reservations

-- A reservation for one tenant, granted or refused, changes no reservation of another tenant and
-- no source or cleanup of any.
pub reserve_isolation :
    (t u source bytes id now : ℕ) (db : Db)
    → u ≢ t
    → let db' = (reserve_file_upload t source bytes id now db).1 in
      (visible u db' ≡ visible u db) × (db'.sources ≡ db.sources) × (db'.cleanups ≡ db.cleanups)
reserve_isolation t u source bytes id now db ne = elim (reserve_cases t source bytes id now db) [
  | inl (e, refused) ↦ rw refused (refl, refl, refl)
  | inr (c, room, known, done) ↦
      let rs = delete_where (is_expired_unlinked t now) db.reservations in
      rw done (
        filter_append_new u (new_row t source bytes id now) rs ne
            ∙ filter_delete_expired u t now db.reservations ne,
        refl,
        refl,
      )
]
