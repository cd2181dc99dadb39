-- ===== src/Knowledge/Rows.antt =====
-- The ORM rows of services/api/app/modules/knowledge/models.py and of app/models/outbox.py.
-- A UUID is a number that is only compared; a datetime is a number of microseconds since a
-- fixed epoch, since Python's datetime counts in microseconds.
use serviq.Common.{ℕ, String, Option, List, Bool, true, false}

pub data SourceType : Type 0 where
  url sitemap pdf markdown text : SourceType

pub data AccessScope : Type 0 where
  customer internal : AccessScope

pub data SourceStatus : Type 0 where
  pending syncing ready failed disabled : SourceStatus

-- `source.status == "disabled"`
abbrev pub is_disabled : SourceStatus → Bool
is_disabled SourceStatus.disabled = true
is_disabled _ = false

pub record KnowledgeSource : Type 0 where
  pub id : ℕ
  pub tenant_id : ℕ
  pub source_type : SourceType
  pub name : String
  pub source_uri : Option String
  pub object_key : Option String
  pub object_size_bytes : Option ℕ
  pub access_scope : AccessScope
  pub status : SourceStatus
  pub sync_version : ℕ
  pub last_synced_at : Option ℕ
  pub last_error_code : Option String
  pub created_by : ℕ
  pub created_at : ℕ
  pub updated_at : ℕ

pub data CleanupStatus : Type 0 where
  prepared pending referenced succeeded exhausted : CleanupStatus

pub record KnowledgeUploadCleanup : Type 0 where
  pub id : ℕ
  pub tenant_id : ℕ
  pub source_id : ℕ
  pub object_id : ℕ
  pub object_key : String
  pub status : CleanupStatus
  pub attempt_count : ℕ
  pub next_attempt_at : Option ℕ
  pub last_error_code : Option String
  pub resolved_at : Option ℕ
  pub created_at : ℕ
  pub updated_at : ℕ

pub record KnowledgeUploadReservation : Type 0 where
  pub id : ℕ
  pub tenant_id : ℕ
  pub source_id : ℕ
  pub reserved_bytes : ℕ
  pub cleanup_id : Option ℕ
  pub lease_expires_at : ℕ
  pub created_at : ℕ
  pub updated_at : ℕ

-- The payload of a sync event; the row's other columns have constant values.
pub record SyncEvent : Type 0 where
  pub tenant_id : ℕ
  pub source_id : ℕ
  pub sync_version : ℕ
  pub correlation_id : String

-- The tables that the API's knowledge module reads and writes.
pub record Db : Type 0 where
  pub tenants : List ℕ
  pub sources : List KnowledgeSource
  pub reservations : List KnowledgeUploadReservation
  pub cleanups : List KnowledgeUploadCleanup
  pub outbox : List SyncEvent
