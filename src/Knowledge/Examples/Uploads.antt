-- ===== src/Knowledge/Examples/Uploads.antt =====
-- The theorems on services/api/app/modules/knowledge/service.py at concrete tables.
use serviq.Common.{
  inr, none, any, Option, String, none, ◌≡◌, refl, some, true, [], ◌∷◌, arith, str_eq, ◌==◌,
  if◌then◌else◌,
}
use serviq.Access.Examples.{two_owners}
use serviq.Access.Rows.{Directory}
use serviq.Knowledge.Rows.{Db, KnowledgeUploadReservation, SourceType, AccessScope}
use serviq.Knowledge.Tx.{ok, transaction}
use serviq.Knowledge.Repository.{find_reservation, linked_to}
use serviq.Knowledge.Quota.{ReservationClaim}
use serviq.Knowledge.Quota.Limits.{IsWithinQuota}
use serviq.Knowledge.Cleanup.Constraints.{CleanupsConsistent}
use serviq.Knowledge.Service.{
  manage_permission, FileRequest, Around, Upload, commit_body, create_file_source,
  start_source_sync,
}
use serviq.Knowledge.Service.Commits.{Start, start_source_sync-Start}
use serviq.Knowledge.Service.Charges.{commit_body-IsWithinQuota}
use serviq.Knowledge.Service.Uploads.{obliges, create_file_source-is_safe_put}
use serviq.Knowledge.Service.Keeping.{create_file_source-Consistent}
use serviq.Knowledge.Service.Legacy.{Measuring, reconcile_legacy_file_sizes}
use serviq.Knowledge.Examples.{tables, held, manual}

abbrev managers : Directory
managers = record two_owners {
  role_permissions = record { role_id = 7; permission_key = manage_permission } ∷ [];
}

-- The manual is synced; another source of the tenant is 12.
start_source_sync-Start_example :
    Start managers 10 1 11 1 12 7 "c" tables (start_source_sync managers 10 1 11 "c" 7 tables)
start_source_sync-Start_example =
    start_source_sync-Start managers 10 1 11 1 12 "c" 7 tables (inr (omega arith))

start_run : (start_source_sync managers 10 1 11 "c" 7 tables).0 ≡ ok tt
unfolding start_source_sync serviq.Knowledge.Service.start_body
    serviq.Knowledge.Service.require_permission serviq.Knowledge.Service.is_permitted
    serviq.Access.Tenancy.resolve_tenant_membership serviq.Access.Tenancy.find_membership
    serviq.Access.Tenancy.list_effective_permission_keys
    serviq.Knowledge.Repository.get_knowledge_source_for_update
    serviq.Knowledge.Repository.add_outbox_event
start_run = refl

abbrev file : FileRequest
file = record { source_type = SourceType.pdf; name = "prices"; access_scope = AccessScope.customer }

-- The upload that the obligation of the tables belongs to.
abbrev upload : ReservationClaim
upload = record {
  reservation_id = 23;
  source_id = 23;
  reserved_bytes = 800;
  lease_expires_at = 100;
}

abbrev linked : KnowledgeUploadReservation
linked = record (held 23 23 100) { cleanup_id = some 71; reserved_bytes = 800 }

linked_found : find_reservation 1 23 tables ≡ some linked
unfolding find_reservation
linked_found = refl

tables-IsWithinQuota : IsWithinQuota 1 tables
tables-IsWithinQuota = record { sources = omega arith; bytes = omega arith }

commit_body-IsWithinQuota_example :
    IsWithinQuota 1 (transaction (commit_body 10 1 file upload "k23" 800 71 90) tables).1
commit_body-IsWithinQuota_example =
    commit_body-IsWithinQuota 10 1 file upload "k23" 800 71 90 linked tables linked_found
      (omega arith) tables-IsWithinQuota

-- An upload whose PUT succeeds, with no other session about.
abbrev calm : Around
calm = record {
  directory = managers;
  validated = some 4096;
  object_id = 41;
  cleanup_id = 72;
  uuid_text = λ n. "v";
  finalized_at = 1000;
  prepared_at = 1001;
  committed_at = 1002;
  failed_at = 1003;
  put_succeeds = true;
  delete_succeeds = true;
  others = λ n db. db;
}

abbrev admission : ReservationClaim
admission = record {
  reservation_id = 21;
  source_id = 31;
  reserved_bytes = 0;
  lease_expires_at = 9000000;
}

abbrev created : Upload
created = create_file_source calm 10 1 file admission tables

-- What was written, and the tables just before.
abbrev written : Option (String × Db) → String × Db
written none = ("", tables)
written (some w) = w

abbrev calm_key : String
calm_key = "tenants/v/knowledge/v/raw/v"

calm_put : created.put ≡ some (calm_key, (written created.put).1)
unfolding create_file_source serviq.Knowledge.Service.is_permitted
    serviq.Access.Tenancy.resolve_tenant_membership serviq.Access.Tenancy.find_membership
    serviq.Access.Tenancy.list_effective_permission_keys
    serviq.Knowledge.Quota.finalize_file_upload_reservation serviq.Knowledge.Quota.finalize_body
    serviq.Knowledge.Quota.begin_admission
    serviq.Knowledge.Repository.lock_tenant_for_knowledge_quota
    serviq.Knowledge.Repository.delete_expired_unlinked_upload_reservations
    serviq.Knowledge.Repository.list_unknown_file_source_sizes find_reservation
    serviq.Knowledge.Repository.get_knowledge_quota_usage serviq.Knowledge.Quota.set_reserved_bytes
    serviq.Knowledge.Service.intent_body
    serviq.Knowledge.Repository.Cleanups.add_upload_cleanup_intent
    serviq.Knowledge.Cleanup.raw_key_value
    serviq.Knowledge.Repository.Cleanups.get_upload_cleanup_for_update
    serviq.Knowledge.Repository.Cleanups.mark_upload_cleanup_referenced
    serviq.Knowledge.Repository.add_file_knowledge_source
    serviq.Knowledge.Repository.bind_upload_reservation_to_cleanup
    serviq.Knowledge.Repository.earliest_lease
    serviq.Knowledge.Repository.release_upload_reservation
    serviq.Knowledge.Service.best_effort_failed_upload_cleanup commit_body
    serviq.Knowledge.Service.end_lease serviq.Knowledge.Service.put_and_commit
calm_put = refl

calm_run : created.failure ≡ none
unfolding create_file_source serviq.Knowledge.Service.is_permitted
    serviq.Access.Tenancy.resolve_tenant_membership serviq.Access.Tenancy.find_membership
    serviq.Access.Tenancy.list_effective_permission_keys
    serviq.Knowledge.Quota.finalize_file_upload_reservation serviq.Knowledge.Quota.finalize_body
    serviq.Knowledge.Quota.begin_admission
    serviq.Knowledge.Repository.lock_tenant_for_knowledge_quota
    serviq.Knowledge.Repository.delete_expired_unlinked_upload_reservations
    serviq.Knowledge.Repository.list_unknown_file_source_sizes find_reservation
    serviq.Knowledge.Repository.get_knowledge_quota_usage serviq.Knowledge.Quota.set_reserved_bytes
    serviq.Knowledge.Service.intent_body
    serviq.Knowledge.Repository.Cleanups.add_upload_cleanup_intent
    serviq.Knowledge.Cleanup.raw_key_value
    serviq.Knowledge.Repository.Cleanups.get_upload_cleanup_for_update
    serviq.Knowledge.Repository.Cleanups.mark_upload_cleanup_referenced
    serviq.Knowledge.Repository.add_file_knowledge_source
    serviq.Knowledge.Repository.bind_upload_reservation_to_cleanup
    serviq.Knowledge.Repository.earliest_lease
    serviq.Knowledge.Repository.release_upload_reservation
    serviq.Knowledge.Service.best_effort_failed_upload_cleanup commit_body
    serviq.Knowledge.Service.end_lease serviq.Knowledge.Service.put_and_commit
calm_run = refl

create_file_source-is_safe_put_example :
    (any (obliges 1 72 calm_key) (written created.put).1.cleanups ≡ true)
    × (any (linked_to 1 72) (written created.put).1.reservations ≡ true)
create_file_source-is_safe_put_example =
    create_file_source-is_safe_put calm 10 1 file admission tables (written created.put).1 calm_key
      calm_put

tables-CleanupsConsistent : CleanupsConsistent tables
tables-CleanupsConsistent = ground arith

create_file_source-Consistent_example :
    CleanupsConsistent (create_file_source calm 10 1 file admission tables).tables
create_file_source-Consistent_example =
    create_file_source-Consistent calm 10 1 file (λ n d p. p) admission tables
      tables-CleanupsConsistent

-- A key whose parts are those of source 11 of tenant 1, of a file with 600 bytes.
abbrev answers : Measuring
answers = record {
  split = λ key. "tenants" ∷ "1" ∷ "knowledge" ∷ "11" ∷ "raw" ∷ "5" ∷ [];
  parse_uuid =
      λ text. if str_eq text "1" then some 1 else if str_eq text "11" then some 11 else some 5;
  uuid_text = λ n. if n == 1 then "1" else if n == 11 then "11" else "5";
  content_length = λ key. some 600;
}

abbrev legacy : Db
legacy = record tables {
  sources =
      record manual { object_key = some "tenants/1/knowledge/11/raw/5"; object_size_bytes = none }
      ∷ [];
}

legacy_run : (reconcile_legacy_file_sizes answers (λ db. db) 1 legacy).0 ≡ ok 1
unfolding reconcile_legacy_file_sizes serviq.Knowledge.Service.Legacy.measure
    serviq.Knowledge.Repository.list_unknown_file_source_sizes
    serviq.Knowledge.Service.Legacy.parse_knowledge_raw_object_key
    serviq.Knowledge.Cleanup.raw_key_value serviq.Knowledge.Service.Legacy.sizes_body
    serviq.Knowledge.Repository.lock_tenant_for_knowledge_quota
    serviq.Knowledge.Service.Legacy.set_sizes
    serviq.Knowledge.Repository.set_file_source_size_if_unknown
legacy_run = refl
