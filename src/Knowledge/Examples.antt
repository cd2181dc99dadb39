-- ===== src/Knowledge/Examples.antt =====
-- Concrete tables, and the theorems of the knowledge module applied to them.
pub mod Reserve
pub mod Replays
pub mod Uploads
use serviq.Common.{ℕ, String, none, some, List, [], ◌∷◌}
use serviq.Knowledge.Rows.{
  Db, KnowledgeSource, KnowledgeUploadReservation, KnowledgeUploadCleanup, SourceType, SourceStatus,
  AccessScope, CleanupStatus,
}

abbrev pub manual : KnowledgeSource
manual = record {
  id = 11;
  tenant_id = 1;
  source_type = SourceType.pdf;
  name = "manual";
  source_uri = none;
  object_key = some "k11";
  object_size_bytes = some 5000;
  access_scope = AccessScope.customer;
  status = SourceStatus.ready;
  sync_version = 1;
  last_synced_at = none;
  last_error_code = none;
  created_by = 9;
  created_at = 1;
  updated_at = 1;
}

abbrev pub held : ℕ → ℕ → ℕ → KnowledgeUploadReservation
held id source lease = record {
  id = id;
  tenant_id = 1;
  source_id = source;
  reserved_bytes = 0;
  cleanup_id = none;
  lease_expires_at = lease;
  created_at = 1;
  updated_at = 1;
}

abbrev pub obligation : KnowledgeUploadCleanup
obligation = record {
  id = 71;
  tenant_id = 1;
  source_id = 23;
  object_id = 33;
  object_key = "tenants/u/knowledge/u/raw/u";
  status = CleanupStatus.prepared;
  attempt_count = 0;
  next_attempt_at = some 500;
  last_error_code = none;
  resolved_at = none;
  created_at = 1;
  updated_at = 1;
}

-- One committed source, one running admission, one expired admission, one upload that is linked
-- to a cleanup obligation.
abbrev pub tables : Db
tables = record {
  tenants = 1 ∷ 2 ∷ [];
  sources = manual ∷ [];
  reservations =
      held 21 31 9000000
      ∷ held 22 32 100
      ∷ (let r = held 23 23 100 in record r { cleanup_id = some 71; reserved_bytes = 800 })
      ∷ [];
  cleanups = obligation ∷ [];
  outbox = [];
}
