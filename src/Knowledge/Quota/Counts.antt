-- ===== src/Knowledge/Quota/Counts.antt =====
-- Sums and counts over the reservations of a tenant, under the statements of the repository.
use serviq.Common.{ℕ, ◌≤◌, ◌≡◌, refl, List, [], ◌∷◌, arith, count_where, sum_where, delete_where}
use serviq.Knowledge.Rows.{KnowledgeUploadReservation}
use serviq.Knowledge.Repository.{
  reservation_of, reservation_bytes, is_expired_unlinked, is_held, is_active,
}

module _ (t now : ℕ) where
  -- Once the expired unlinked rows are gone, every row of the tenant is held.
  pub held-count :
      (rs : List KnowledgeUploadReservation)
      → count_where (is_held t now) (delete_where (is_expired_unlinked t now) rs)
        ≡ count_where (reservation_of t) (delete_where (is_expired_unlinked t now) rs)
  held-count [] = refl
  held-count (r ∷ rs) = ground (arith, held-count rs)

  pub held-sum :
      (rs : List KnowledgeUploadReservation)
      → sum_where (is_held t now) reservation_bytes (delete_where (is_expired_unlinked t now) rs)
        ≡ sum_where
            (reservation_of t)
            reservation_bytes
            (delete_where (is_expired_unlinked t now) rs)
  held-sum [] = refl
  held-sum (r ∷ rs) = ground (arith, held-sum rs)

  -- Time only ends leases.
  pub active_later :
      (later : ℕ) (rs : List KnowledgeUploadReservation)
      → now ≤ later
      → count_where (is_active t later) rs ≤ count_where (is_active t now) rs
  active_later later [] h = omega arith
  active_later later (r ∷ rs) h = ground (arith, active_later later rs h)
