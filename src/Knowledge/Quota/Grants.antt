-- ===== src/Knowledge/Quota/Grants.antt =====
-- When a reservation is granted, and what a refusal for concurrency tells the caller.
use Prim.Native.Nat.{◌*◌, ◌/◌}
use serviq.Common.{
  ℕ, ◌+◌, ◌-◌, ◌≤◌, ◌<◌, ◌≡◌, sym, ◌≢◌, ◌∙◌, inl, inr, refl, none, some, Bool, true, false, not,
  List, [], ◌∷◌, arith, ltb, leb, max, count_where, delete_where, Bool-cases, Option-cases,
}
use serviq.Knowledge.Rows.{Db, KnowledgeUploadReservation}
use serviq.Knowledge.Tx.{
  ok, err, raise_if_pass, transaction_cases, pure, ◌>>◌, raise_if_err, bind_err, bind_lem, raise_if,
  quota_unavailable, gets, concurrency_limited, ◌>>=◌,
}
use serviq.Knowledge.Repository.{
  lock_tenant_for_knowledge_quota, has_tenant, delete_expired_unlinked_upload_reservations,
  add_upload_reservation, clashes, max_file_bytes, get_knowledge_quota_usage,
  list_unknown_file_source_sizes, is_active, is_expired_unlinked, earliest_lease,
  KnowledgeQuotaUsage,
}
use serviq.Knowledge.Quota.{
  ReservationClaim, reserve_body, reserve_file_upload, begin_admission, check_capacity, retry_after,
  any_unknown, source_limit, byte_limit, concurrent_limit, charged_bytes, charged_sources, second,
  upload_lease,
}
use serviq.Knowledge.Quota.Counts.{active_later}
use serviq.Knowledge.Quota.Limits.{
  begin_admission_inv, purged, with_row, new_row, HasRoom, delete_expired_lem,
}

lock_lem :
    (t : ℕ) (db : Db)
    → has_tenant t db.tenants ≡ true
    → lock_tenant_for_knowledge_quota t db ≡ ok (tt, db)
unfolding lock_tenant_for_knowledge_quota
lock_lem t db h = rw h

begin_admission_lem :
    (t now : ℕ) (db : Db)
    → has_tenant t db.tenants ≡ true
    → any_unknown (list_unknown_file_source_sizes t db.sources) ≡ false
    → begin_admission t now db ≡ ok (tt, purged t now db)
unfolding begin_admission
begin_admission_lem t now db h k =
    bind_lem (lock_tenant_for_knowledge_quota t) _ db tt db (lock_lem t db h)
    ∙ bind_lem (delete_expired_unlinked_upload_reservations t now) _ db _ _
        (delete_expired_lem t now db)
    ∙ rw (k, raise_if)

check_capacity_lem :
    (u : KnowledgeQuotaUsage) (bytes now : ℕ) (db : Db)
    → HasRoom u bytes
    → check_capacity u bytes now db ≡ ok (tt, db)
unfolding check_capacity
check_capacity_lem u bytes now db room =
    let few : leb source_limit (charged_sources u) ≡ false = ground arith in
    let small : ltb byte_limit (charged_bytes u + bytes) ≡ false = ground arith in
    let quiet : leb concurrent_limit u.active_uploads ≡ false = ground arith in
    raise_if_pass _ _ _ db few ∙ raise_if_pass _ _ _ db small ∙ rw (quiet, raise_if)

reserve_body_lem :
    (t source bytes id now : ℕ) (db : Db)
    → has_tenant t db.tenants ≡ true
    → any_unknown (list_unknown_file_source_sizes t db.sources) ≡ false
    → HasRoom (get_knowledge_quota_usage t now (purged t now db)) bytes
    → bytes ≤ max_file_bytes
    → count_where (clashes (new_row t source bytes id now)) (purged t now db).reservations ≡ 0
    → reserve_body t source bytes id now db
      ≡ ok (tt, with_row (new_row t source bytes id now) (purged t now db))
unfolding reserve_body add_upload_reservation
reserve_body_lem t source bytes id now db lives known room small fresh =
    bind_lem (begin_admission t now) _ db tt (purged t now db)
      (begin_admission_lem t now db lives known)
    ∙ bind_lem (check_capacity (get_knowledge_quota_usage t now (purged t now db)) bytes now) _ _ tt
        _ (check_capacity_lem _ bytes now _ room)
    ∙ ground arith

-- A reservation for an existing tenant is granted, with a lease of ten minutes, where every file
-- size is known, the size is allowed, the tenant has room for it once its expired unlinked
-- reservations are gone, and the new row clashes with none of those that remain.
pub reserve_grants :
    (t source bytes id now : ℕ) (db : Db)
    → has_tenant t db.tenants ≡ true
    → any_unknown (list_unknown_file_source_sizes t db.sources) ≡ false
    → HasRoom (get_knowledge_quota_usage t now (purged t now db)) bytes
    → bytes ≤ max_file_bytes
    → count_where (clashes (new_row t source bytes id now)) (purged t now db).reservations ≡ 0
    → reserve_file_upload t source bytes id now db ≡ (
      ok (record {
        reservation_id = id;
        source_id = source;
        reserved_bytes = bytes;
        lease_expires_at = now + upload_lease;
      }),
      with_row (new_row t source bytes id now) (purged t now db),
    )
unfolding reserve_file_upload
reserve_grants t source bytes id now db lives known room small fresh =
    let fits : ltb max_file_bytes bytes ≡ false = ground arith in
    rw fits (ground (arith, reserve_body_lem t source bytes id now db lives known room small fresh))

earliest_lease-none :
    (t now : ℕ) (rs : List KnowledgeUploadReservation)
    → earliest_lease t now rs ≡ none
    → count_where (is_active t now) rs ≡ 0
unfolding earliest_lease
earliest_lease-none t now [] h = refl
earliest_lease-none t now (r ∷ rs) h = elim (Option-cases (earliest_lease t now rs)) [
  | inl e ↦ ground (arith, earliest_lease-none t now rs e)
  | inr (x, e) ↦ ground arith
]

-- The earliest lease is one of the running leases, and it is over from its end on.
earliest_active :
    (t now e later : ℕ) (rs : List KnowledgeUploadReservation)
    → earliest_lease t now rs ≡ some e
    → e ≤ later
    → now ≤ later
    → (now < e) × (count_where (is_active t later) rs < count_where (is_active t now) rs)
unfolding earliest_lease
earliest_active t now e later [] h le later_on = ground arith
earliest_active t now e later (r ∷ rs) h le later_on =
    elim (Option-cases (earliest_lease t now rs)) [
      | inl k ↦ ground (arith, earliest_lease-none t now rs k, active_later t now later rs later_on)
      | inr (x, k) ↦
          ground (arith, earliest_active t now x later rs k, active_later t now later rs later_on)
    ]

check_capacity_limited :
    (u : KnowledgeQuotaUsage) (bytes now n : ℕ) (db : Db)
    → check_capacity u bytes now db ≡ err (concurrency_limited n)
    → (n ≡ max (retry_after u.earliest_active_lease now) 1) × (concurrent_limit ≤ u.active_uploads)
unfolding check_capacity
check_capacity_limited u bytes now n db h =
    let busy : Bool = leb concurrent_limit u.active_uploads in
    elim (raise_if_err (leb source_limit (charged_sources u)) _ _ db _ h) [
      | inl (full, other) ↦ cc
      | inr (few, h') ↦ elim (raise_if_err (ltb byte_limit (charged_bytes u + bytes)) _ _ db _ h') [
        | inl (full, other) ↦ cc
        | inr (small, last) ↦ elim (Bool-cases busy) [
          | inl limited ↦ ground (arith, limited, last)
          | inr quiet ↦ ground (arith, quiet, last)
        ]
      ]
    ]

begin_admission-ne-limited :
    (t now n : ℕ) (db : Db) → begin_admission t now db ≢ err (concurrency_limited n)
unfolding begin_admission lock_tenant_for_knowledge_quota
begin_admission-ne-limited t now n db h =
    elim (bind_err (lock_tenant_for_knowledge_quota t) _ db _ h) [
      | inl locked ↦ elim (Bool-cases (not (has_tenant t db.tenants))) [
        | inl gone ↦ ground (arith, gone, locked)
        | inr lives ↦ ground (arith, lives, locked)
      ]
      | inr (a, db1, locked, rest) ↦
          let unknown : Bool = any_unknown (list_unknown_file_source_sizes t db1.sources) in
          let bound : (gets (λ d. list_unknown_file_source_sizes t d.sources) >>= λ unknown.
          raise_if (any_unknown unknown) quota_unavailable)
                (purged t now db1)
              ≡ err (concurrency_limited n) =
            sym (
              bind_lem (delete_expired_unlinked_upload_reservations t now) _ db1 _ _
                (delete_expired_lem t now db1))
            ∙ rest in
          elim (Bool-cases unknown) [
            | inl some_unknown ↦ ground (arith, bound, some_unknown)
            | inr known ↦ ground (arith, bound, known)
          ]
    ]

-- Deleting what has expired deletes no running lease.
active_purged :
    (t now later : ℕ) (rs : List KnowledgeUploadReservation)
    → now ≤ later
    → count_where (is_active t later) (delete_where (is_expired_unlinked t now) rs)
      ≡ count_where (is_active t later) rs
active_purged t now later [] h = refl
active_purged t now later (r ∷ rs) h = ground (arith, active_purged t now later rs h)

add-ne-limited :
    (t source bytes id now n : ℕ) (db : Db)
    → add_upload_reservation id t source bytes (now + upload_lease) now db
      ≢ err (concurrency_limited n)
unfolding add_upload_reservation
add-ne-limited t source bytes id now n db h = ground arith

reserve_body_limited :
    (t source bytes id now n : ℕ) (db : Db)
    → reserve_body t source bytes id now db ≡ err (concurrency_limited n)
    → let u = get_knowledge_quota_usage t now (purged t now db) in
      (n ≡ max (retry_after u.earliest_active_lease now) 1) × (concurrent_limit ≤ u.active_uploads)
unfolding reserve_body
reserve_body_limited t source bytes id now n db h =
    elim (bind_err (begin_admission t now) _ db _ h) [
      | inl begun ↦ absurd (begin_admission-ne-limited t now n db begun)
      | inr (a, db1, begun, rest) ↦
          let u : KnowledgeQuotaUsage = get_knowledge_quota_usage t now db1 in
          let same : db1 ≡ purged t now db = (begin_admission_inv t now db db1 begun).0 in
          elim (bind_err (check_capacity u bytes now) _ db1 _ rest) [
            | inl checked ↦ rw same at (check_capacity_limited u bytes now n db1 checked)
            | inr (b, db2, checked, added) ↦
                absurd (add-ne-limited t source bytes id now n db2 added)
          ]
    ]

retry_wait :
    (t now n : ℕ) (db : Db)
    → (let u = get_knowledge_quota_usage t now (purged t now db) in
        (n ≡ max (retry_after u.earliest_active_lease now) 1)
        × (concurrent_limit ≤ u.active_uploads))
    → (1 ≤ n)
      × (concurrent_limit ≤ count_where (is_active t now) db.reservations)
      × (count_where (is_active t (now + n * second)) db.reservations
          < count_where (is_active t now) db.reservations)
unfolding get_knowledge_quota_usage retry_after
retry_wait t now n db (eq, busy) =
    let rs = delete_where (is_expired_unlinked t now) db.reservations in
    let same = active_purged t now now db.reservations (omega arith) in
    let then_same = active_purged t now (now + n * second) db.reservations (omega arith) in
    elim (Option-cases (earliest_lease t now rs)) [
      | inl idle ↦ absurd (omega (arith, earliest_lease-none t now rs idle))
      | inr (e, lease) ↦
          let wait : n ≡ max (max ((e - now + (second - 1)) / second) 1) 1 = rw lease at eq in
          let past : e ≤ now + n * second = omega (arith, wait) in
          let ended = earliest_active t now e (now + n * second) rs lease past (omega arith) in
          (omega (arith, wait), omega (arith, busy, same), omega (arith, ended, same, then_same))
    ]

-- A refusal for concurrency means that three uploads are running, and waiting for the number of
-- seconds that it gives, at least one, is enough for one of them to end.
pub reserve_retry :
    (t source bytes id now n : ℕ) (db : Db)
    → (reserve_file_upload t source bytes id now db).0 ≡ err (concurrency_limited n)
    → (1 ≤ n)
      × (concurrent_limit ≤ count_where (is_active t now) db.reservations)
      × (count_where (is_active t (now + n * second)) db.reservations
          < count_where (is_active t now) db.reservations)
unfolding reserve_file_upload
reserve_retry t source bytes id now n db h = elim (Bool-cases (ltb max_file_bytes bytes)) [
  | inl large ↦ ground (arith, large)
  | inr fits ↦
      let body = reserve_body t source bytes id now in
      let claim : ReservationClaim = record {
        reservation_id = id;
        source_id = source;
        reserved_bytes = bytes;
        lease_expires_at = now + upload_lease;
      } in
      elim (transaction_cases (body >> pure claim) db) [
        | inr (c, db', done, committed) ↦ ground (arith, fits, committed)
        | inl (e, failed, refused) ↦
            let eq : e ≡ concurrency_limited n = ground (arith, fits, refused) in
            elim (bind_err body _ db e failed) [
              | inl b ↦
                  retry_wait t now n db
                    (reserve_body_limited t source bytes id now n db (rw eq at b))
              | inr (a, db1, ran, kept) ↦ cc
            ]
      ]
]
