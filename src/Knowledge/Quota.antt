-- ===== src/Knowledge/Quota.antt =====
-- services/api/app/modules/knowledge/quota.py: reservation of source, byte and concurrency
-- capacity for a tenant. New ids and the clock are arguments; log lines are not modelled. Sizes
-- are natural numbers, so of the test `0 <= n <= MAX` the upper half remains.
pub mod Counts
pub mod Limits
pub mod Isolation
pub mod Grants
pub mod Finalize
pub mod Release
pub mod Returns
use Prim.Native.Nat.{◌*◌, ◌/◌, ◌-◌}
use serviq.Common.{
  ℕ, ◌+◌, String, Option, none, some, Bool, true, false, not, ◌&&◌, ◌||◌, List, [], ◌∷◌, max, ltb,
  leb, ◌==◌, if◌then◌else◌, is_some, update_where,
}
use serviq.Knowledge.Rows.{Db, KnowledgeUploadReservation}
use serviq.Knowledge.Tx.{
  Error, Tx, ◌>>=◌, ◌>>◌, pure, gets, modify, raise, raise_if, Result, ok, err, transaction,
  quota_unavailable, source_quota_exceeded, storage_quota_exceeded, concurrency_limited,
  value_error,
}
use serviq.Knowledge.Repository.{
  max_file_bytes, KnowledgeQuotaUsage, lock_tenant_for_knowledge_quota,
  delete_expired_unlinked_upload_reservations, list_unknown_file_source_sizes,
  get_knowledge_quota_usage, set_file_source_size_if_unknown, add_upload_reservation,
  find_reservation, is_reservation, release_upload_reservation,
}

abbrev pub source_limit : ℕ
source_limit = 100

abbrev pub byte_limit : ℕ
byte_limit = 1024 * 1024 * 1024

abbrev pub concurrent_limit : ℕ
concurrent_limit = 3

-- A second in the unit of the clock, and `timedelta(minutes=10)`.
abbrev pub second : ℕ
second = 1000000

abbrev pub upload_lease : ℕ
upload_lease = 600 * second

abbrev pub charged_sources : KnowledgeQuotaUsage → ℕ
charged_sources u = u.committed_sources + u.held_sources

abbrev pub charged_bytes : KnowledgeQuotaUsage → ℕ
charged_bytes u = u.committed_bytes + u.held_bytes

pub record ReservationClaim : Type 0 where
  pub reservation_id : ℕ
  pub source_id : ℕ
  pub reserved_bytes : ℕ
  pub lease_expires_at : ℕ

-- `if unknown:`
abbrev pub any_unknown : List (ℕ × String) → Bool
any_unknown [] = false
any_unknown (_ ∷ _) = true

-- `max(ceil((earliest - current).total_seconds()), 1)`, where an active lease ends after now.
unfoldable pub retry_after : Option ℕ → ℕ → ℕ
retry_after none now = 1
retry_after (some earliest) now = max ((earliest - now + (second - 1)) / second) 1

-- `assert_source_capacity`; it runs in the transaction of its caller.
unfoldable pub assert_source_capacity : ℕ → ℕ → Tx KnowledgeQuotaUsage
assert_source_capacity t now = do
  lock_tenant_for_knowledge_quota t
  delete_expired_unlinked_upload_reservations t now
  usage ← gets (get_knowledge_quota_usage t now)
  raise_if (leb source_limit (charged_sources usage)) source_quota_exceeded
  pure usage

-- The three checks of `reserve_file_upload`, in the order of the code.
unfoldable pub check_capacity : KnowledgeQuotaUsage → ℕ → ℕ → Tx (Unit {0})
check_capacity usage bytes now = do
  raise_if (leb source_limit (charged_sources usage)) source_quota_exceeded
  raise_if (ltb byte_limit (charged_bytes usage + bytes)) storage_quota_exceeded
  raise_if (leb concurrent_limit usage.active_uploads)
      (concurrency_limited (max (retry_after usage.earliest_active_lease now) 1))

-- The lock and the reads with which both `reserve_file_upload` and
-- `finalize_file_upload_reservation` begin.
unfoldable pub begin_admission : ℕ → ℕ → Tx (Unit {0})
begin_admission t now = do
  lock_tenant_for_knowledge_quota t
  delete_expired_unlinked_upload_reservations t now
  unknown ← gets (λ db. list_unknown_file_source_sizes t db.sources)
  raise_if (any_unknown unknown) quota_unavailable

unfoldable pub reserve_body : ℕ → ℕ → ℕ → ℕ → ℕ → Tx (Unit {0})
reserve_body t source bytes id now = do
  begin_admission t now
  usage ← gets (get_knowledge_quota_usage t now)
  check_capacity usage bytes now
  add_upload_reservation id t source bytes (now + upload_lease) now

-- `reserve_file_upload`
unfoldable pub reserve_file_upload : ℕ → ℕ → ℕ → ℕ → ℕ → Db → Result ReservationClaim × Db
reserve_file_upload t source bytes id now db =
    if ltb max_file_bytes bytes
    then (err value_error, db)
    else transaction
        (do
          reserve_body t source bytes id now
          pure (record {
            reservation_id = id;
            source_id = source;
            reserved_bytes = bytes;
            lease_expires_at = now + upload_lease;
          }))
        db

-- The row that an admission holds, while it may still be given its bytes.
abbrev pub is_live_admission : ReservationClaim → ℕ → KnowledgeUploadReservation → Bool
is_live_admission admission now r =
    r.source_id == admission.source_id
    && not (is_some r.cleanup_id)
    && r.reserved_bytes == 0
    && ltb now r.lease_expires_at

abbrev pub is_live_row : ReservationClaim → ℕ → Option KnowledgeUploadReservation → Bool
is_live_row admission now none = false
is_live_row admission now (some r) = is_live_admission admission now r

-- `reservation.reserved_bytes = reserved_bytes`, and the flush.
unfoldable pub set_reserved_bytes : ℕ → ℕ → ℕ → ℕ → Tx (Unit {0})
set_reserved_bytes t id bytes now = modify λ db. record db {
  reservations =
      update_where (is_reservation t id)
        (λ r. record r { reserved_bytes = bytes; updated_at = now }) db.reservations;
}

unfoldable pub finalize_body : ℕ → ReservationClaim → ℕ → ℕ → Tx (Unit {0})
finalize_body t admission bytes now = do
  begin_admission t now
  found ← gets (find_reservation t admission.reservation_id)
  raise_if (not (is_live_row admission now found)) quota_unavailable
  usage ← gets (get_knowledge_quota_usage t now)
  raise_if (ltb byte_limit (charged_bytes usage + bytes)) storage_quota_exceeded
  set_reserved_bytes t admission.reservation_id bytes now

-- `finalize_file_upload_reservation`
unfoldable pub finalize_file_upload_reservation :
    ℕ → ReservationClaim → ℕ → ℕ → Db → Result ReservationClaim × Db
finalize_file_upload_reservation t admission bytes now db =
    if ltb max_file_bytes bytes || not (admission.reserved_bytes == 0)
    then (err value_error, db)
    else transaction
        (do
          finalize_body t admission bytes now
          pure (record {
            reservation_id = admission.reservation_id;
            source_id = admission.source_id;
            reserved_bytes = bytes;
            lease_expires_at = admission.lease_expires_at;
          }))
        db

-- `release_unlinked_reservation`
unfoldable pub release_unlinked_reservation : ℕ → ℕ → Db → Result (Unit {0}) × Db
release_unlinked_reservation t id = transaction (release_upload_reservation t id)
