-- ===== src/Knowledge/Examples/Reserve.antt =====
-- The quota theorems at concrete tables.
use serviq.Common.{
  false, some, none, ◌⊎◌, ◌+◌, ◌*◌, ◌≤◌, ◌<◌, ◌≡◌, refl, [], ◌∷◌, arith, count_where,
}
use serviq.Knowledge.Rows.{KnowledgeUploadReservation, Db}
use serviq.Knowledge.Tx.{ok, err, concurrency_limited}
use serviq.Knowledge.Repository.{
  lock_tenant_for_knowledge_quota, delete_expired_unlinked_upload_reservations,
  get_knowledge_quota_usage, earliest_lease, list_unknown_file_source_sizes, add_upload_reservation,
  find_reservation, is_active, is_held,
}
use serviq.Knowledge.Quota.{
  ReservationClaim, charged_sources, release_unlinked_reservation, charged_bytes, upload_lease,
  concurrent_limit, second, reserve_file_upload, reserve_body, begin_admission, check_capacity,
  retry_after, finalize_file_upload_reservation, finalize_body, set_reserved_bytes,
}
use serviq.Knowledge.Quota.Limits.{
  IsWithinQuota, purged, with_row, new_row, reserve-IsWithinQuota, reserve-concurrent-le,
}
use serviq.Knowledge.Quota.Finalize.{IsKeyed, finalize-IsWithinQuota}
use serviq.Knowledge.Quota.Grants.{reserve_grants, reserve_retry}
use serviq.Knowledge.Quota.Isolation.{visible, reserve_isolation}
use serviq.Knowledge.Quota.Release.{release_gives_back}
use serviq.Knowledge.Quota.Returns.{release-reserve}
use serviq.Knowledge.Examples.{tables, held}

abbrev granted : ReservationClaim
granted = record {
  reservation_id = 50;
  source_id = 7;
  reserved_bytes = 1000;
  lease_expires_at = 1000 + upload_lease;
}

reserve_run : (reserve_file_upload 1 7 1000 50 1000 tables).0 ≡ ok granted
unfolding reserve_file_upload reserve_body begin_admission check_capacity
    lock_tenant_for_knowledge_quota delete_expired_unlinked_upload_reservations
    get_knowledge_quota_usage earliest_lease list_unknown_file_source_sizes add_upload_reservation
reserve_run = refl

reserve-IsWithinQuota_example : IsWithinQuota 1 (reserve_file_upload 1 7 1000 50 1000 tables).1
reserve-IsWithinQuota_example = reserve-IsWithinQuota 1 7 1000 50 1000 tables granted reserve_run

reserve-concurrent-le_example :
    (get_knowledge_quota_usage 1 2000
      (reserve_file_upload 1 7 1000 50 1000 tables).1).active_uploads
    ≤ concurrent_limit
reserve-concurrent-le_example =
    reserve-concurrent-le 1 7 1000 50 1000 2000 tables granted reserve_run (omega arith)

reserve_grants_example :
    reserve_file_upload 1 7 1000 50 1000 tables
    ≡ (ok granted, with_row (new_row 1 7 1000 50 1000) (purged 1 1000 tables))
unfolding list_unknown_file_source_sizes get_knowledge_quota_usage
reserve_grants_example =
    reserve_grants 1 7 1000 50 1000 tables refl refl (omega arith) (omega arith) refl

reserve_isolation_example :
    let db' = (reserve_file_upload 1 7 1000 50 1000 tables).1 in
    (visible 2 db' ≡ visible 2 tables)
    × (db'.sources ≡ tables.sources)
    × (db'.cleanups ≡ tables.cleanups)
reserve_isolation_example = reserve_isolation 1 2 7 1000 50 1000 tables (omega arith)

abbrev busy : Db
busy = record tables {
  reservations = held 41 51 9000000 ∷ held 42 52 4000000 ∷ held 43 53 7000000 ∷ [];
}

reserve_limited : (reserve_file_upload 1 7 0 50 1000 busy).0 ≡ err (concurrency_limited 4)
unfolding reserve_file_upload reserve_body begin_admission check_capacity
    lock_tenant_for_knowledge_quota delete_expired_unlinked_upload_reservations
    get_knowledge_quota_usage earliest_lease list_unknown_file_source_sizes add_upload_reservation
    retry_after
reserve_limited = refl

reserve_retry_example :
    ◌≤◌ 1 4
    × (concurrent_limit ≤ count_where (is_active 1 1000) busy.reservations)
    × (count_where (is_active 1 (1000 + 4 * second)) busy.reservations
        < count_where (is_active 1 1000) busy.reservations)
reserve_retry_example = reserve_retry 1 7 0 50 1000 4 busy reserve_limited

abbrev admission : ReservationClaim
admission = record {
  reservation_id = 21;
  source_id = 31;
  reserved_bytes = 0;
  lease_expires_at = 9000000;
}

finalize_run :
    (finalize_file_upload_reservation 1 admission 4096 1000 tables).0
    ≡ ok (record {
      reservation_id = 21;
      source_id = 31;
      reserved_bytes = 4096;
      lease_expires_at = 9000000;
    })
unfolding finalize_file_upload_reservation finalize_body set_reserved_bytes begin_admission
    lock_tenant_for_knowledge_quota delete_expired_unlinked_upload_reservations
    get_knowledge_quota_usage earliest_lease list_unknown_file_source_sizes find_reservation
finalize_run = refl

tables-IsKeyed : IsKeyed tables.reservations
tables-IsKeyed i = ground arith

finalize-IsWithinQuota_example :
    IsWithinQuota 1 (finalize_file_upload_reservation 1 admission 4096 1000 tables).1
finalize-IsWithinQuota_example =
    finalize-IsWithinQuota 1 admission 4096 1000 tables _ tables-IsKeyed (omega arith) finalize_run

-- A reservation that a cleanup was linked to.
abbrev linked : KnowledgeUploadReservation
linked = record (held 23 23 100) { cleanup_id = some 71; reserved_bytes = 800 }

linked_found : find_reservation 1 23 tables ≡ some linked
unfolding find_reservation
linked_found = refl

release_gives_back_example :
    let db' = (release_unlinked_reservation 1 23 tables).1 in
    let before = get_knowledge_quota_usage 1 1000 tables in
    let after = get_knowledge_quota_usage 1 1000 db' in
    (find_reservation 1 23 db' ≡ none)
    × (find_reservation 1 21 db' ≡ find_reservation 1 21 tables)
    × ((is_held 1 1000 linked ≡ false)
        ⊎ ((charged_sources after + 1 ≤ charged_sources before)
            × (charged_bytes after + 800 ≤ charged_bytes before)))
release_gives_back_example =
    release_gives_back 1 23 21 1000 linked tables linked_found (omega arith)

release-reserve_example :
    let db' =
      (release_unlinked_reservation 1 50 (reserve_file_upload 1 7 1000 50 1000 tables).1).1 in
    (get_knowledge_quota_usage 1 5000 db' ≡ get_knowledge_quota_usage 1 5000 tables)
    × (find_reservation 1 50 db' ≡ none)
    × (db'.sources ≡ tables.sources)
    × (db'.cleanups ≡ tables.cleanups)
    × (db'.outbox ≡ tables.outbox)
release-reserve_example =
    release-reserve 1 7 1000 50 1000 5000 tables granted reserve_run (omega arith)
