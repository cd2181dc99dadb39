-- ===== src/Worker/Sync/Run.antt =====
-- `run_knowledge_sync` of services/worker/app/jobs/knowledge_sync.py, over what it calls outside:
-- the fetch of a public URL, the object store, SHA-256 and the parse of a URL.
use Prim.Native.String.{◌++◌ as append}
use text.Mathlib.Text.{starts_with}
use serviq.Common.{
  ℕ, String, Option, none, some, Bool, true, false, not, ◌&&◌, List, ltb, str_eq, if◌then◌else◌,
}
use serviq.Worker.Sync.{
  SourceType, Source, Db, KnowledgeSyncCommand, KnowledgeSyncResult, no_op, failure,
  source_not_found, source_disabled, version_ahead, source_type_unsupported, object_unavailable,
  replay_content_mismatch, FetchedContent, is_disabled, load_source, document_by_version,
  completed_handoff_exists, persist_document_and_parse_event, Document,
}

-- The answer of `fetch_public_knowledge`, or the code of its error with its retry flag.
pub data Fetch : Type 0 where
  body : List ℕ → String → String → Fetch
  fetch_error : String → Bool → Fetch

-- What one run meets outside the tables. `others n` is what other sessions commit after the n-th
-- session of this run: the load (0), the handoff check (1) and the replay check (2).
pub record Outside : Type 0 where
  pub hostname : String → Option String
  pub fetch : String → String → Fetch
  pub get_bytes : String → Option (List ℕ)
  pub put_ok : Bool
  pub sha256 : List ℕ → String
  pub decimal : ℕ → String
  pub uuid_text : ℕ → String
  pub has_control : String → Bool
  pub new_id : ℕ
  pub now : ℕ
  pub others : ℕ → Db → Db

abbrev pub source_prefix : Outside → KnowledgeSyncCommand → String
source_prefix o c =
    append "tenants/" (
      append (o.uuid_text c.tenant_id)
        (append "/knowledge/" (append (o.uuid_text c.source_id) "/")))

-- `_sync_raw_key`
abbrev pub sync_raw_key : Outside → KnowledgeSyncCommand → String
sync_raw_key o c =
    append (source_prefix o c) (append "sync/" (append (o.decimal c.sync_version) "/raw"))

-- `_is_tenant_source_key`; `has_control` tells whether a NUL, CR or LF stands in the key.
unfoldable pub is_tenant_source_key : Outside → String → KnowledgeSyncCommand → Bool
is_tenant_source_key o key c = starts_with (source_prefix o c) key && not (o.has_control key)

pub data Content : Type 0 where
  got : FetchedContent → Content
  stop : KnowledgeSyncResult → Content

-- `_file_content_type`
abbrev pub file_content_type : SourceType → String
file_content_type SourceType.pdf = "application/pdf"
file_content_type SourceType.markdown = "text/markdown"
file_content_type _ = "text/plain"

abbrev pub fetched_url : Outside → KnowledgeSyncCommand → Fetch → Content
fetched_url o c (body bytes final_url type) = got (record {
  raw_bytes = bytes;
  raw_object_key = sync_raw_key o c;
  canonical_uri = some final_url;
  content_type = type;
})
fetched_url o c (fetch_error code again) = stop (failure code again)

abbrev pub fetch_host : Outside → KnowledgeSyncCommand → String → Option String → Content
fetch_host o c uri none = stop (failure source_not_found false)
fetch_host o c uri (some host) = fetched_url o c (o.fetch uri host)

unfoldable pub fetch_url : Outside → KnowledgeSyncCommand → Option String → Content
fetch_url o c none = stop (failure source_not_found false)
fetch_url o c (some uri) = fetch_host o c uri (o.hostname uri)

abbrev read_object : SourceType → String → Option (List ℕ) → Content
read_object type key none = stop (failure object_unavailable true)
read_object type key (some bytes) = got (record {
  raw_bytes = bytes;
  raw_object_key = key;
  canonical_uri = none;
  content_type = file_content_type type;
})

unfoldable pub fetch_file : Outside → KnowledgeSyncCommand → SourceType → Option String → Content
fetch_file o c type none = stop (failure source_not_found false)
fetch_file o c type (some key) =
    if is_tenant_source_key o key c
    then read_object type key (o.get_bytes key)
    else stop (failure source_not_found false)

-- `_fetch_content`
unfoldable pub fetch_content : Outside → KnowledgeSyncCommand → Source → Content
fetch_content o c s = elim s.source_type [
  | SourceType.url ↦ fetch_url o c s.source_uri
  | SourceType.sitemap ↦ stop (failure source_type_unsupported false)
  | SourceType.pdf ↦ fetch_file o c SourceType.pdf s.object_key
  | SourceType.markdown ↦ fetch_file o c SourceType.markdown s.object_key
  | SourceType.text ↦ fetch_file o c SourceType.text s.object_key
]

-- `_preflight_replay_mismatch`
abbrev pub mismatches : String → Option Document → Bool
mismatches hash none = false
mismatches hash (some d) = not (str_eq d.content_hash hash)

unfoldable pub preflight_replay_mismatch : KnowledgeSyncCommand → String → Db → Bool
preflight_replay_mismatch c hash db = mismatches hash (document_by_version c db)

-- The result, the tables, whether the content was asked for, and the object that was written.
pub record Ran : Type 0 where
  pub result : KnowledgeSyncResult
  pub tables : Db
  pub asked : Bool
  pub put : Option (String × List ℕ)

abbrev pub stopped : KnowledgeSyncResult → Db → Bool → Ran
stopped r db asked = record { result = r; tables = db; asked = asked; put = none }

abbrev pub persisted : Option (String × List ℕ) → KnowledgeSyncResult × Db → Ran
persisted put (r, db) = record { result = r; tables = db; asked = true; put = put }

abbrev pub is_url : SourceType → Bool
is_url SourceType.url = true
is_url _ = false

abbrev pub is_sitemap : SourceType → Bool
is_sitemap SourceType.sitemap = true
is_sitemap _ = false

-- From the replay check on: the raw object of a URL is written before the transaction.
unfoldable pub store_and_persist :
    Outside → KnowledgeSyncCommand → Source → FetchedContent → Db → Ran
store_and_persist o c s f db =
    let hash = o.sha256 f.raw_bytes in
    let put = if is_url s.source_type then some (f.raw_object_key, f.raw_bytes) else none in
    if preflight_replay_mismatch c hash db
    then stopped (failure replay_content_mismatch false) db true
    else if is_url s.source_type && not o.put_ok
    then stopped (failure object_unavailable true) db true
    else persisted put (persist_document_and_parse_event c s f hash o.new_id o.now (o.others 2 db))

abbrev pub with_content : Outside → KnowledgeSyncCommand → Source → Db → Content → Ran
with_content o c s db (stop r) = stopped r db true
with_content o c s db (got f) = store_and_persist o c s f (o.others 1 db)

unfoldable pub sync_current : Outside → KnowledgeSyncCommand → Source → Db → Ran
sync_current o c s db =
    if completed_handoff_exists c db
    then stopped no_op db false
    else with_content o c s db (fetch_content o c s)

-- The checks on the source that was loaded.
unfoldable pub sync_loaded : Outside → KnowledgeSyncCommand → Option Source → Db → Ran
sync_loaded o c none db = stopped (failure source_not_found false) db false
sync_loaded o c (some s) db =
    if is_disabled s.status
    then stopped (failure source_disabled false) db false
    else if ltb c.sync_version s.sync_version
    then stopped no_op db false
    else if ltb s.sync_version c.sync_version
    then stopped (failure version_ahead false) db false
    else if is_sitemap s.source_type
    then stopped (failure source_type_unsupported false) db false
    else sync_current o c s (o.others 0 db)

-- `run_knowledge_sync`
unfoldable pub run_knowledge_sync : Outside → KnowledgeSyncCommand → Db → Ran
run_knowledge_sync o c db = sync_loaded o c (load_source c db) db
