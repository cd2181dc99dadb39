-- ===== src/Knowledge/Repository.antt =====
-- services/api/app/modules/knowledge/repository.py: the statements on sources, upload
-- reservations and the tenant lock. A statement that changes rows is the body of a transaction;
-- a read is a function of the state. A flush refuses rows that break a constraint of the tables
-- (services/api/alembic/versions/20260819_0008 and 20260828_0011).
pub mod Cleanups
use Prim.Native.Nat.{◌*◌}
use serviq.Common.{
  ℕ, ◌+◌, String, Option, none, some, Bool, true, false, not, ◌&&◌, ◌||◌, List, [], ◌∷◌, ◌++◌, min,
  ltb, leb, ◌==◌, str_eq, if◌then◌else◌, is_some, is_id, count_where, sum_where, find_where,
  delete_where, update_where,
}
use serviq.Knowledge.Rows.{
  Db, KnowledgeSource, KnowledgeUploadReservation, SourceType, SourceStatus, AccessScope, SyncEvent,
}
use serviq.Knowledge.Tx.{
  Tx, ◌>>=◌, ◌>>◌, pure, gets, modify, raise, raise_if, runtime_error, integrity_error,
}

-- `_MAX_FILE_BYTES` of the migration and `MAX_KNOWLEDGE_FILE_BYTES` of quota.py.
abbrev pub max_file_bytes : ℕ
max_file_bytes = 25 * 1024 * 1024

-- `WHERE tenant_id = t`
abbrev pub source_of : ℕ → KnowledgeSource → Bool
source_of t s = s.tenant_id == t

abbrev pub reservation_of : ℕ → KnowledgeUploadReservation → Bool
reservation_of t r = r.tenant_id == t

-- coalesce(object_size_bytes, 0), as a sum reads it
abbrev pub size_or_zero : Option ℕ → ℕ
size_or_zero none = 0
size_or_zero (some n) = n

abbrev pub source_bytes : KnowledgeSource → ℕ
source_bytes s = size_or_zero s.object_size_bytes

abbrev pub reservation_bytes : KnowledgeUploadReservation → ℕ
reservation_bytes r = r.reserved_bytes

-- `SELECT id FROM tenants WHERE id=:tenant_id FOR UPDATE`; transactions are serial here.
abbrev pub has_tenant : ℕ → List ℕ → Bool
has_tenant t [] = false
has_tenant t (x ∷ xs) = x == t || has_tenant t xs

unfoldable pub lock_tenant_for_knowledge_quota : ℕ → Tx (Unit {0})
lock_tenant_for_knowledge_quota t db = raise_if (not (has_tenant t db.tenants)) runtime_error db

-- The predicate of `delete_expired_unlinked_upload_reservations`.
abbrev pub is_expired_unlinked : ℕ → ℕ → KnowledgeUploadReservation → Bool
is_expired_unlinked t now r =
    r.tenant_id == t && not (is_some r.cleanup_id) && leb r.lease_expires_at now

unfoldable pub delete_expired_unlinked_upload_reservations : ℕ → ℕ → Tx ℕ
delete_expired_unlinked_upload_reservations t now db =
    let count = count_where (is_expired_unlinked t now) db.reservations in
    pure count (
      if ltb 0 count
      then record db { reservations = delete_where (is_expired_unlinked t now) db.reservations }
      else db)

-- `held_predicate` and the active predicate of `get_knowledge_quota_usage`.
abbrev pub is_held : ℕ → ℕ → KnowledgeUploadReservation → Bool
is_held t now r = r.tenant_id == t && (is_some r.cleanup_id || ltb now r.lease_expires_at)

abbrev pub is_active : ℕ → ℕ → KnowledgeUploadReservation → Bool
is_active t now r = r.tenant_id == t && ltb now r.lease_expires_at

-- min(lease_expires_at) over the active rows
abbrev pub earlier : Option ℕ → ℕ → Option ℕ
earlier none a = some a
earlier (some b) a = some (min a b)

unfoldable pub earliest_lease : ℕ → ℕ → List KnowledgeUploadReservation → Option ℕ
earliest_lease t now [] = none
earliest_lease t now (r ∷ rs) =
    let rest = earliest_lease t now rs in
    if is_active t now r then earlier rest r.lease_expires_at else rest

-- The row that `get_knowledge_quota_usage` returns, as quota.py names its columns.
pub record KnowledgeQuotaUsage : Type 0 where
  pub committed_sources : ℕ
  pub committed_bytes : ℕ
  pub held_sources : ℕ
  pub held_bytes : ℕ
  pub active_uploads : ℕ
  pub earliest_active_lease : Option ℕ

unfoldable pub get_knowledge_quota_usage : ℕ → ℕ → Db → KnowledgeQuotaUsage
get_knowledge_quota_usage t now db = record {
  committed_sources = count_where (source_of t) db.sources;
  committed_bytes = sum_where (source_of t) source_bytes db.sources;
  held_sources = count_where (is_held t now) db.reservations;
  held_bytes = sum_where (is_held t now) reservation_bytes db.reservations;
  active_uploads = count_where (is_active t now) db.reservations;
  earliest_active_lease = earliest_lease t now db.reservations;
}

-- The predicate of `list_unknown_file_source_sizes`, and the statement.
abbrev pub is_unknown_size : ℕ → KnowledgeSource → Bool
is_unknown_size t s = s.tenant_id == t && is_some s.object_key && not (is_some s.object_size_bytes)

abbrev with_key : ℕ → Option String → List (ℕ × String) → List (ℕ × String)
with_key i none rest = rest
with_key i (some key) rest = (i, key) ∷ rest

unfoldable pub list_unknown_file_source_sizes : ℕ → List KnowledgeSource → List (ℕ × String)
list_unknown_file_source_sizes t [] = []
list_unknown_file_source_sizes t (s ∷ ss) =
    let rest = list_unknown_file_source_sizes t ss in
    if is_unknown_size t s then with_key s.id s.object_key rest else rest

abbrev pub has_key : String → Option String → Bool
has_key k none = false
has_key k (some j) = str_eq j k

-- The predicate of `set_file_source_size_if_unknown`, and the statement.
abbrev pub is_unmeasured : ℕ → ℕ → String → KnowledgeSource → Bool
is_unmeasured t source key s =
    s.tenant_id == t
    && s.id == source
    && has_key key s.object_key
    && not (is_some s.object_size_bytes)

unfoldable pub set_file_source_size_if_unknown : ℕ → ℕ → String → ℕ → Tx (Unit {0})
set_file_source_size_if_unknown t source key size = modify λ db. record db {
  sources =
      update_where (is_unmeasured t source key) (λ s. record s { object_size_bytes = some size })
        db.sources;
}

-- A new reservation row must satisfy the constraints of its table: the byte range, the primary
-- key, and the uniqueness of (tenant_id, source_id).
abbrev pub clashes : KnowledgeUploadReservation → KnowledgeUploadReservation → Bool
clashes new r = r.id == new.id || (r.tenant_id == new.tenant_id && r.source_id == new.source_id)

-- `add_upload_reservation` and the flush that follows it.
unfoldable pub add_upload_reservation : ℕ → ℕ → ℕ → ℕ → ℕ → ℕ → Tx (Unit {0})
add_upload_reservation id tenant source bytes lease now db =
    let row : KnowledgeUploadReservation = record {
      id = id;
      tenant_id = tenant;
      source_id = source;
      reserved_bytes = bytes;
      cleanup_id = none;
      lease_expires_at = lease;
      created_at = now;
      updated_at = now;
    } in
    if ltb max_file_bytes bytes || ltb 0 (count_where (clashes row) db.reservations)
    then raise integrity_error db
    else modify (λ d. record d { reservations = d.reservations ++ row ∷ [] }) db

-- `WHERE tenant_id = t AND id = reservation_id`
abbrev pub is_reservation : ℕ → ℕ → KnowledgeUploadReservation → Bool
is_reservation t id r = r.tenant_id == t && r.id == id

unfoldable pub find_reservation : ℕ → ℕ → Db → Option KnowledgeUploadReservation
find_reservation t id db = find_where (is_reservation t id) db.reservations

abbrev pub linked_to : ℕ → ℕ → KnowledgeUploadReservation → Bool
linked_to t cleanup r = r.tenant_id == t && is_id r.cleanup_id cleanup

-- The row is locked, checked and linked; `cleanup_id` is unique in the table.
unfoldable pub bind_upload_reservation_to_cleanup : ℕ → ℕ → ℕ → ℕ → Tx (Unit {0})
bind_upload_reservation_to_cleanup t id cleanup now db =
    elim (find_where (is_reservation t id) db.reservations) [
      | none ↦ raise runtime_error db
      | some r ↦
          if is_some r.cleanup_id
          then raise runtime_error db
          else if ltb 0 (count_where (λ q. is_id q.cleanup_id cleanup) db.reservations)
          then raise integrity_error db
          else modify
              (λ d. record d {
                reservations =
                    update_where (is_reservation t id)
                      (λ q. record q { cleanup_id = some cleanup; updated_at = now })
                      d.reservations;
              })
              db
    ]

unfoldable pub expire_upload_concurrency_lease_for_cleanup : ℕ → ℕ → ℕ → Tx (Unit {0})
expire_upload_concurrency_lease_for_cleanup t cleanup now = modify λ db. record db {
  reservations =
      update_where (λ r. linked_to t cleanup r && ltb now r.lease_expires_at)
        (λ r. record r { lease_expires_at = now; updated_at = now }) db.reservations;
}

unfoldable pub release_upload_reservation : ℕ → ℕ → Tx (Unit {0})
release_upload_reservation t id =
    modify λ db. record db { reservations = delete_where (is_reservation t id) db.reservations }

unfoldable pub release_upload_reservation_for_cleanup : ℕ → ℕ → Tx (Unit {0})
release_upload_reservation_for_cleanup t cleanup =
    modify λ db. record db { reservations = delete_where (linked_to t cleanup) db.reservations }

-- A new source row is refused where its key is taken, its size is out of range, or it lacks the
-- location that its type requires.
abbrev pub has_location : KnowledgeSource → Bool
has_location s = elim s.source_type [
  | SourceType.url ↦ is_some s.source_uri
  | SourceType.sitemap ↦ is_some s.source_uri
  | _ ↦ is_some s.object_key
]

abbrev pub add_source : KnowledgeSource → Tx (Unit {0})
add_source s db =
    if leb (size_or_zero s.object_size_bytes) max_file_bytes
      && has_location s
      && leb (count_where (λ q. q.id == s.id) db.sources) 0
    then modify (λ d. record d { sources = d.sources ++ s ∷ [] }) db
    else raise integrity_error db

unfoldable pub add_knowledge_source :
    ℕ → ℕ → SourceType → String → String → AccessScope → ℕ → ℕ → Tx (Unit {0})
add_knowledge_source id tenant type name uri scope user now = add_source (record {
  id = id;
  tenant_id = tenant;
  source_type = type;
  name = name;
  source_uri = some uri;
  object_key = none;
  object_size_bytes = none;
  access_scope = scope;
  status = SourceStatus.pending;
  sync_version = 0;
  last_synced_at = none;
  last_error_code = none;
  created_by = user;
  created_at = now;
  updated_at = now;
})

abbrev pub new_file_source :
    ℕ → ℕ → SourceType → String → String → ℕ → AccessScope → ℕ → ℕ → KnowledgeSource
new_file_source id tenant type name key size scope user now = record {
  id = id;
  tenant_id = tenant;
  source_type = type;
  name = name;
  source_uri = none;
  object_key = some key;
  object_size_bytes = some size;
  access_scope = scope;
  status = SourceStatus.pending;
  sync_version = 0;
  last_synced_at = none;
  last_error_code = none;
  created_by = user;
  created_at = now;
  updated_at = now;
}

unfoldable pub add_file_knowledge_source :
    ℕ → ℕ → SourceType → String → String → ℕ → AccessScope → ℕ → ℕ → Tx (Unit {0})
add_file_knowledge_source id tenant type name key size scope user now =
    add_source (new_file_source id tenant type name key size scope user now)

-- `WHERE tenant_id = t AND id = source_id`
abbrev pub is_source : ℕ → ℕ → KnowledgeSource → Bool
is_source t id s = s.tenant_id == t && s.id == id

unfoldable pub get_knowledge_source_for_update : ℕ → ℕ → Db → Option KnowledgeSource
get_knowledge_source_for_update t id db = find_where (is_source t id) db.sources

unfoldable pub add_outbox_event : SyncEvent → Tx (Unit {0})
add_outbox_event event = modify λ db. record db { outbox = db.outbox ++ event ∷ [] }
