-- ===== src/Worker/Sync/Guards.antt =====
-- What a whole run does under replays, stale versions and other sessions.
use serviq.Common.{
  ℕ, ◌≡◌, sym, ap, ◌∙◌, String, Option, none, some, false, not, ◌&&◌, arith, ltb, some-injective,
  if_holds,
}
use serviq.Worker.Sync.{
  Db, Source, KnowledgeSyncCommand, success, no_op, FetchedContent, is_disabled, load_source,
  completed_handoff_exists, persist_document_and_parse_event,
}
use serviq.Worker.Sync.Run.{
  Outside, Content, got, stop, Ran, stopped, fetch_content, is_url, is_sitemap,
  preflight_replay_mismatch, store_and_persist, with_content, sync_current, sync_loaded,
  run_knowledge_sync,
}
use serviq.Worker.Sync.Handoff.{HandsOffOnce, persist-HandsOffOnce}
use serviq.Worker.Sync.Completes.{persist_success_inv}

-- One rule for every invariant of the tables under a run.
module _ (P : Db → Type 0) (o : Outside) (c : KnowledgeSyncCommand)
    (others : (n : ℕ) (d : Db) → P d → P (o.others n d))
    (persists : (s : Source) (f : FetchedContent) (hash : String) (d : Db)
      → P d
      → P (persist_document_and_parse_event c s f hash o.new_id o.now d).1) where
  abbrev Holds : Ran → Type 0
  Holds r = P r.tables

  store_and_persist_keeps :
      (s : Source) (f : FetchedContent) (db : Db) → P db → P (store_and_persist o c s f db).tables
  unfolding store_and_persist
  store_and_persist_keeps s f db h =
      if_holds Holds (preflight_replay_mismatch c (o.sha256 f.raw_bytes) db) _ _ (λ _. h)
        λ _.
          if_holds Holds (is_url s.source_type && not o.put_ok) _ _ (λ _. h)
            λ _. persists s f _ _ (others 2 db h)

  with_content_keeps :
      (s : Source) (db : Db) (k : Content) → P db → P (with_content o c s db k).tables
  with_content_keeps s db (stop r) h = h
  with_content_keeps s db (got f) h = store_and_persist_keeps s f _ (others 1 db h)

  sync_loaded_keeps : (found : Option Source) (db : Db) → P db → P (sync_loaded o c found db).tables
  unfolding sync_loaded sync_current
  sync_loaded_keeps none db h = h
  sync_loaded_keeps (some s) db h =
      if_holds Holds (is_disabled s.status) _ _ (λ _. h)
        λ _.
          if_holds Holds (ltb c.sync_version s.sync_version) _ _ (λ _. h)
            λ _.
              if_holds Holds (ltb s.sync_version c.sync_version) _ _ (λ _. h)
                λ _.
                  if_holds Holds (is_sitemap s.source_type) _ _ (λ _. h)
                    λ _.
                      if_holds Holds (completed_handoff_exists c (o.others 0 db)) _ _
                        (λ _. others 0 db h)
                        λ _. with_content_keeps s _ (fetch_content o c s) (others 0 db h)

  pub run_keeps : (db : Db) → P db → P (run_knowledge_sync o c db).tables
  unfolding run_knowledge_sync
  run_keeps db h = sync_loaded_keeps (load_source c db) db h

-- Where the tables have at most one document for each source version and one parse obligation for
-- each document, a run keeps it so, whatever the outside answers, as long as the other sessions do.
pub run-HandsOffOnce :
    (o : Outside) (c : KnowledgeSyncCommand) (db : Db)
    → ((n : ℕ) (d : Db) → HandsOffOnce d → HandsOffOnce (o.others n d))
    → HandsOffOnce db
    → HandsOffOnce (run_knowledge_sync o c db).tables
run-HandsOffOnce o c db others h =
    run_keeps HandsOffOnce o c others
      (λ s f hash d k. persist-HandsOffOnce c s f hash o.new_id o.now d k) db h

-- Once a version's handoff has committed, the same command run again, by anyone and with any
-- answers from outside, asks for no content, writes no object, changes no row and reports a no-op,
-- where the source is no sitemap and no other session came in between.
pub replay_is_noop :
    (o : Outside) (c : KnowledgeSyncCommand) (s k : Source) (f : FetchedContent) (hash : String)
    (id now : ℕ) (db : Db)
    → let db' = (persist_document_and_parse_event c s f hash id now db).1 in
      (persist_document_and_parse_event c s f hash id now db).0 ≡ success
      → load_source c db ≡ some k
      → is_sitemap k.source_type ≡ false
      → o.others 0 db' ≡ db'
      → run_knowledge_sync o c db' ≡ stopped no_op db' false
unfolding run_knowledge_sync sync_loaded sync_current
replay_is_noop o c s k f hash id now db h loaded page quiet =
    let db' = (persist_document_and_parse_event c s f hash id now db).1 in
    let (k', e) = persist_success_inv c s f hash id now db h in
    let same : k' ≡ k = some-injective k' k (sym e.locked ∙ loaded) in
    let few : ltb c.sync_version k'.sync_version ≡ false = ground (arith, e.current) in
    let reached : ltb k'.sync_version c.sync_version ≡ false = ground (arith, e.current) in
    let page' : is_sitemap k'.source_type ≡ false = rw same page in
    ap (λ x. sync_loaded o c x db') e.marked ∙ rw (few, reached, page', quiet, e.complete)
