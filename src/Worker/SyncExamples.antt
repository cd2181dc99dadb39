-- ===== src/Worker/SyncExamples.antt =====
-- A source at version 2 whose document is persisted, and runs of its command.
use serviq.Common.{◌≡◌, refl, none, some, true, false, [], ◌∷◌, arith}
use serviq.Worker.Sync.{
  SourceType, SourceStatus, Source, Db, KnowledgeSyncCommand, FetchedContent, success, no_op,
  load_source, mark_matching_source_failed, document_by_version, completed_handoff_exists,
  persist_document, persist_locked, persist_document_and_parse_event,
}
use serviq.Worker.Sync.Run.{
  body, Outside, stopped, run_knowledge_sync, sync_loaded, sync_current, fetch_content, fetch_url,
  store_and_persist, preflight_replay_mismatch, sync_raw_key,
}
use serviq.Worker.Sync.Handoff.{HandsOffOnce, persist-HandsOffOnce}
use serviq.Worker.Sync.Completes.{IsPersisted, persist_success}
use serviq.Worker.Sync.Guards.{run-HandsOffOnce, replay_is_noop}
use serviq.Worker.Sync.Objects.{
  IsSafePut, put_is_safe, FailureMark, mark_matching_source_failed-FailureMark,
}

abbrev page : Source
page = record {
  id = 7;
  tenant_id = 1;
  source_type = SourceType.url;
  name = "Help";
  source_uri = some "https://example.com/help";
  object_key = none;
  status = SourceStatus.pending;
  sync_version = 2;
  last_synced_at = none;
  last_error_code = none;
}

abbrev empty_db : Db
empty_db = record { sources = page ∷ []; documents = []; events = [] }

abbrev command : KnowledgeSyncCommand
command = record {
  event_id = 40;
  tenant_id = 1;
  source_id = 7;
  sync_version = 2;
  correlation_id = "c-1";
}

abbrev content : FetchedContent
content = record {
  raw_bytes = 104 ∷ 105 ∷ [];
  raw_object_key = "raw";
  canonical_uri = none;
  content_type = "text/html";
}

abbrev outside : Outside
outside = record {
  hostname = λ _. some "example.com";
  fetch = λ _ _. body (104 ∷ 105 ∷ []) "https://example.com/help" "text/html";
  get_bytes = λ _. none;
  put_ok = true;
  sha256 = λ _. "h";
  decimal = λ _. "2";
  uuid_text = λ _. "id";
  has_control = λ _. false;
  new_id = 90;
  now = 1000;
  others = λ n db. db;
}

empty_db-HandsOffOnce : HandsOffOnce empty_db
empty_db-HandsOffOnce = record { versions = λ c. omega arith; obligations = λ t d. omega arith }

persisted_db : Db
persisted_db = (persist_document_and_parse_event command page content "h" 90 1000 empty_db).1

persist_ok :
    (persist_document_and_parse_event command page content "h" 90 1000 empty_db).0 ≡ success
unfolding persist_document_and_parse_event persist_locked persist_document load_source
    document_by_version
persist_ok = refl

persist-HandsOffOnce_example :
    HandsOffOnce (persist_document_and_parse_event command page content "h" 90 1000 empty_db).1
persist-HandsOffOnce_example =
    persist-HandsOffOnce command page content "h" 90 1000 empty_db empty_db-HandsOffOnce

persist_success_example :
    (k left : Source) × IsPersisted command 1000 empty_db
      (persist_document_and_parse_event command page content "h" 90 1000 empty_db).1
      k
      left
persist_success_example = persist_success command page content "h" 90 1000 empty_db persist_ok

run-HandsOffOnce_example : HandsOffOnce (run_knowledge_sync outside command empty_db).tables
run-HandsOffOnce_example =
    run-HandsOffOnce outside command empty_db (λ n d h. h) empty_db-HandsOffOnce

page_found : load_source command empty_db ≡ some page
unfolding load_source
page_found = refl

replay_is_noop_example :
    run_knowledge_sync outside command
      (persist_document_and_parse_event command page content "h" 90 1000 empty_db).1
    ≡ stopped no_op
        (persist_document_and_parse_event command page content "h" 90 1000 empty_db).1
        false
replay_is_noop_example =
    replay_is_noop outside command page page content "h" 90 1000 empty_db persist_ok page_found refl
      refl

run_puts :
    (run_knowledge_sync outside command empty_db).put
    ≡ some (sync_raw_key outside command, 104 ∷ 105 ∷ [])
unfolding run_knowledge_sync sync_loaded sync_current load_source completed_handoff_exists
    document_by_version fetch_content fetch_url store_and_persist preflight_replay_mismatch
run_puts = refl

put_is_safe_example :
    IsSafePut outside command empty_db (sync_raw_key outside command) (104 ∷ 105 ∷ [])
put_is_safe_example =
    put_is_safe outside command empty_db (sync_raw_key outside command) (104 ∷ 105 ∷ []) run_puts

-- A command for a later version of the same source, which reads it after the mark.
abbrev late : KnowledgeSyncCommand
late = record command { sync_version = 9 }

late_found : load_source late empty_db ≡ some page
unfolding load_source
late_found = refl

mark_matching_source_failed-FailureMark_example :
    (k' : Source) × (load_source late (mark_matching_source_failed command "FETCH" empty_db)
      ≡ some k')
    × FailureMark command "FETCH" page k'
mark_matching_source_failed-FailureMark_example =
    mark_matching_source_failed-FailureMark command late "FETCH" empty_db page late_found
