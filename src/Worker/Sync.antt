-- ===== src/Worker/Sync.antt =====
-- services/worker/app/jobs/knowledge_sync.py: the tables, the command, and the transaction that
-- persists a document with its parse obligation. A UUID is a number that is only compared, so the
-- text of a document id stands for the id. The database's clock and the id that it generates for
-- a new document are arguments. Rows are typed, so `_snapshot_from_row` raises nothing.
pub mod Run
pub mod Handoff
pub mod Completes
pub mod Guards
pub mod Objects
use Prim.Native.String.{◌++◌ as append}
use serviq.Common.{
  ℕ, ◌+◌, String, Option, none, some, Bool, true, false, not, ◌&&◌, ◌||◌, List, [], ◌∷◌, ◌++◌, ltb,
  leb, ◌==◌, str_eq, if◌then◌else◌, find_where, update_where, is_some,
}

pub data SourceType : Type 0 where
  url sitemap pdf markdown text : SourceType

pub data SourceStatus : Type 0 where
  pending syncing ready failed disabled : SourceStatus

-- A row of `knowledge_sources`, with the columns that the job reads or writes.
pub record Source : Type 0 where
  pub id : ℕ
  pub tenant_id : ℕ
  pub source_type : SourceType
  pub name : String
  pub source_uri : Option String
  pub object_key : Option String
  pub status : SourceStatus
  pub sync_version : ℕ
  pub last_synced_at : Option ℕ
  pub last_error_code : Option String

pub record Document : Type 0 where
  pub id : ℕ
  pub tenant_id : ℕ
  pub source_id : ℕ
  pub canonical_uri : Option String
  pub title : String
  pub content_hash : String
  pub document_version : ℕ

-- A pending parse event of the outbox, with its payload; `aggregate_id` is the document's id.
pub record ParseEvent : Type 0 where
  pub tenant_id : ℕ
  pub aggregate_id : ℕ
  pub source_id : ℕ
  pub document_version : ℕ
  pub source_type : SourceType
  pub raw_object_key : String
  pub canonical_uri : Option String
  pub content_hash : String
  pub correlation_id : String
  pub causation_id : ℕ

pub record Db : Type 0 where
  pub sources : List Source
  pub documents : List Document
  pub events : List ParseEvent

pub record KnowledgeSyncCommand : Type 0 where
  pub event_id : ℕ
  pub tenant_id : ℕ
  pub source_id : ℕ
  pub sync_version : ℕ
  pub correlation_id : String

pub record KnowledgeSyncResult : Type 0 where
  pub completed : Bool
  pub noop : Bool
  pub error_code : Option String
  pub retryable : Bool

abbrev pub success : KnowledgeSyncResult
success = record { completed = true; noop = false; error_code = none; retryable = false }

abbrev pub no_op : KnowledgeSyncResult
no_op = record { completed = true; noop = true; error_code = none; retryable = false }

abbrev pub failure : String → Bool → KnowledgeSyncResult
failure code again = record {
  completed = false;
  noop = false;
  error_code = some code;
  retryable = again;
}

-- `KnowledgeSyncErrorCode`
abbrev pub source_not_found : String
source_not_found = "KNOWLEDGE_SYNC_SOURCE_NOT_FOUND"

abbrev pub source_disabled : String
source_disabled = "KNOWLEDGE_SOURCE_DISABLED"

abbrev pub version_ahead : String
version_ahead = "KNOWLEDGE_SYNC_VERSION_AHEAD"

abbrev pub source_type_unsupported : String
source_type_unsupported = "KNOWLEDGE_SYNC_SOURCE_TYPE_UNSUPPORTED"

abbrev pub object_unavailable : String
object_unavailable = "KNOWLEDGE_SOURCE_OBJECT_UNAVAILABLE"

abbrev pub replay_content_mismatch : String
replay_content_mismatch = "KNOWLEDGE_SYNC_REPLAY_CONTENT_MISMATCH"

pub record FetchedContent : Type 0 where
  pub raw_bytes : List ℕ
  pub raw_object_key : String
  pub canonical_uri : Option String
  pub content_type : String

abbrev pub is_disabled : SourceStatus → Bool
is_disabled SourceStatus.disabled = true
is_disabled _ = false

-- `_SOURCE_SELECT` and `_SOURCE_LOCK`
abbrev pub is_source : KnowledgeSyncCommand → Source → Bool
is_source c s = s.id == c.source_id && s.tenant_id == c.tenant_id

unfoldable pub load_source : KnowledgeSyncCommand → Db → Option Source
load_source c db = find_where (is_source c) db.sources

-- `_DOCUMENT_BY_VERSION`
abbrev pub is_version : KnowledgeSyncCommand → Document → Bool
is_version c d =
    d.tenant_id == c.tenant_id && d.source_id == c.source_id && d.document_version == c.sync_version

unfoldable pub document_by_version : KnowledgeSyncCommand → Db → Option Document
document_by_version c db = find_where (is_version c) db.documents

-- `_PARSE_EVENT_EXISTS`
abbrev pub is_handoff : ℕ → ℕ → ParseEvent → Bool
is_handoff t d e = e.tenant_id == t && e.aggregate_id == d

unfoldable pub parse_event_exists : ℕ → ℕ → Db → Bool
parse_event_exists t d db = is_some (find_where (is_handoff t d) db.events)

-- `_completed_handoff_exists`
abbrev pub handed_off : KnowledgeSyncCommand → Db → Option Document → Bool
handed_off c db none = false
handed_off c db (some d) = parse_event_exists c.tenant_id d.id db

unfoldable pub completed_handoff_exists : KnowledgeSyncCommand → Db → Bool
completed_handoff_exists c db = handed_off c db (document_by_version c db)

-- `_DOCUMENT_INSERT`
abbrev pub new_document : KnowledgeSyncCommand → Source → FetchedContent → String → ℕ → Document
new_document c s f hash id = record {
  id = id;
  tenant_id = c.tenant_id;
  source_id = c.source_id;
  canonical_uri = f.canonical_uri;
  title = s.name;
  content_hash = hash;
  document_version = c.sync_version;
}

-- `_PARSE_EVENT_INSERT`
abbrev pub new_event : KnowledgeSyncCommand → Source → FetchedContent → String → ℕ → ParseEvent
new_event c s f hash doc = record {
  tenant_id = c.tenant_id;
  aggregate_id = doc;
  source_id = c.source_id;
  document_version = c.sync_version;
  source_type = s.source_type;
  raw_object_key = f.raw_object_key;
  canonical_uri = f.canonical_uri;
  content_hash = hash;
  correlation_id = c.correlation_id;
  causation_id = c.event_id;
}

-- `_SOURCE_SUCCESS_UPDATE`
abbrev pub owns_version : KnowledgeSyncCommand → Source → Bool
owns_version c s =
    s.id == c.source_id && s.tenant_id == c.tenant_id && s.sync_version == c.sync_version

abbrev pub synced : ℕ → Source → Source
synced now s = record s {
  status = SourceStatus.syncing;
  last_synced_at = some now;
  last_error_code = none;
}

-- The parse event unless there is one, and the update of the source.
unfoldable pub hand_off : KnowledgeSyncCommand → Source → FetchedContent → String → ℕ → ℕ → Db → Db
hand_off c s f hash doc now db = record db {
  events =
      if parse_event_exists c.tenant_id doc db
      then db.events
      else db.events ++ new_event c s f hash doc ∷ [];
  sources = update_where (owns_version c) (synced now) db.sources;
}

-- The branches on the document of this version, under the lock.
unfoldable pub persist_document :
    KnowledgeSyncCommand
    → Source
    → FetchedContent
    → String
    → ℕ
    → ℕ
    → Option Document
    → Db
    → KnowledgeSyncResult × Db
persist_document c s f hash id now none db = (
  success,
  hand_off c s f hash id now
      (record db { documents = db.documents ++ new_document c s f hash id ∷ [] }),
)
persist_document c s f hash id now (some d) db =
    if str_eq d.content_hash hash
    then (success, hand_off c s f hash d.id now db)
    else (failure replay_content_mismatch false, db)

-- The checks on the locked source.
unfoldable pub persist_locked :
    KnowledgeSyncCommand
    → Source
    → FetchedContent
    → String
    → ℕ
    → ℕ
    → Option Source
    → Db
    → KnowledgeSyncResult × Db
persist_locked c s f hash id now none db = (failure source_not_found false, db)
persist_locked c s f hash id now (some locked) db =
    if is_disabled locked.status
    then (failure source_disabled false, db)
    else if ltb c.sync_version locked.sync_version
    then (no_op, db)
    else if ltb locked.sync_version c.sync_version
    then (failure version_ahead false, db)
    else persist_document c s f hash id now (document_by_version c db) db

-- `_persist_document_and_parse_event`
unfoldable pub persist_document_and_parse_event :
    KnowledgeSyncCommand → Source → FetchedContent → String → ℕ → ℕ → Db → KnowledgeSyncResult × Db
persist_document_and_parse_event c s f hash id now db =
    persist_locked c s f hash id now (load_source c db) db

-- `_SOURCE_FAILURE_UPDATE`
abbrev pub may_fail : KnowledgeSyncCommand → Source → Bool
may_fail c s = owns_version c s && not (is_disabled s.status)

abbrev pub failed_with : String → Source → Source
failed_with code s = record s { status = SourceStatus.failed; last_error_code = some code }

-- `mark_matching_source_failed`
unfoldable pub mark_matching_source_failed : KnowledgeSyncCommand → String → Db → Db
mark_matching_source_failed c code db = record db {
  sources = update_where (may_fail c) (failed_with code) db.sources;
}
