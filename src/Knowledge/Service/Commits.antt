-- ===== src/Knowledge/Service/Commits.antt =====
-- The start of a sync in services/api/app/modules/knowledge/service.py.
use serviq.Common.{
  ℕ, ◌+◌, ◌≡◌, ◌≢◌, ◌⊎◌, inl, inr, refl, String, Option, none, some, true, false, [], ◌∷◌, ◌++◌,
  arith, find_where_holds, find_replaced, find_beside, Bool-cases,
}
use serviq.Access.Rows.{Directory}
use serviq.Knowledge.Rows.{Db, KnowledgeSource, SourceStatus, SyncEvent, is_disabled}
use serviq.Knowledge.Tx.{Result, ok, err, transaction, forbidden, source_not_found, source_disabled}
use serviq.Knowledge.Repository.{is_source, get_knowledge_source_for_update, add_outbox_event}
use serviq.Knowledge.Service.{
  require_permission, is_permitted, syncing, set_source, sync_event, start_found, start_body,
  start_source_sync,
}

-- How a started sync of source `id` leaves the tables: the columns of the source before (`s`) and
-- after (`s'`), its one new event, and the source `j` of tenant `u`, which is another one.
pub record IsStarted (t id u j now : ℕ) (correlation : String) (db db' : Db)
    (s s' : KnowledgeSource) (event : SyncEvent) : Type 0 where
  pub found : get_knowledge_source_for_update t id db ≡ some s
  pub enabled : is_disabled s.status ≡ false
  pub reread : get_knowledge_source_for_update t id db' ≡ some s'
  pub next_version : s'.sync_version ≡ s.sync_version + 1
  pub marked : s'.status ≡ SourceStatus.syncing
  pub cleared : s'.last_error_code ≡ none
  pub appended : db'.outbox ≡ db.outbox ++ event ∷ []
  pub event_tenant : event.tenant_id ≡ t
  pub event_source : event.source_id ≡ id
  pub event_version : event.sync_version ≡ s.sync_version + 1
  pub event_correlation : event.correlation_id ≡ correlation
  pub other_kept : get_knowledge_source_for_update u j db' ≡ get_knowledge_source_for_update u j db
  pub reservations_kept : db'.reservations ≡ db.reservations
  pub cleanups_kept : db'.cleanups ≡ db.cleanups

-- The four ends of a start: three refusals, which change no table, and the start.
pub data Start (directory : Directory) (user t id u j now : ℕ) (correlation : String) (db : Db)
    : Result (Unit {0}) × Db → Type 0 where
  not_permitted :
      is_permitted directory user t ≡ false
      → Start directory user t id u j now correlation db (err forbidden, db)
  not_there :
      is_permitted directory user t ≡ true
      → get_knowledge_source_for_update t id db ≡ none
      → Start directory user t id u j now correlation db (err source_not_found, db)
  not_enabled :
      (s : KnowledgeSource)
      → is_permitted directory user t ≡ true
      → get_knowledge_source_for_update t id db ≡ some s
      → is_disabled s.status ≡ true
      → Start directory user t id u j now correlation db (err source_disabled, db)
  started :
      (s s' : KnowledgeSource) (event : SyncEvent) (db' : Db)
      → is_permitted directory user t ≡ true
      → IsStarted t id u j now correlation db db' s s' event
      → Start directory user t id u j now correlation db (ok tt, db')

-- The tables after a sync of `s` has started.
abbrev after_start : ℕ → ℕ → String → ℕ → KnowledgeSource → Db → Db
after_start t id correlation now s db = record (set_source t id (syncing now s) db) {
  outbox = db.outbox ++ sync_event t correlation (syncing now s) ∷ [];
}

another :
    (t id u j : ℕ) (x : KnowledgeSource)
    → (t ≢ u) ⊎ (id ≢ j)
    → is_source t id x ≡ true
    → is_source u j x ≡ false
another t id u j x (inl h) e = ground (arith, h, e)
another t id u j x (inr h) e = ground (arith, h, e)

own_id : (t id : ℕ) (x : KnowledgeSource) → is_source t id x ≡ true → x.id ≡ id
own_id t id x e = ground (arith, e)

after_start-IsStarted :
    (t id u j now : ℕ) (correlation : String) (db : Db) (s : KnowledgeSource)
    → (t ≢ u) ⊎ (id ≢ j)
    → get_knowledge_source_for_update t id db ≡ some s
    → is_disabled s.status ≡ false
    → IsStarted t id u j now correlation db
        (after_start t id correlation now s db)
        s
        (syncing now s)
        (sync_event t correlation (syncing now s))
unfolding get_knowledge_source_for_update
after_start-IsStarted t id u j now correlation db s other found on =
    let own = find_where_holds (is_source t id) db.sources s found in
    record {
      found = found;
      enabled = on;
      reread = find_replaced (is_source t id) db.sources s (syncing now s) found own;
      next_version = refl;
      marked = refl;
      cleared = refl;
      appended = refl;
      event_tenant = refl;
      event_source = own_id t id s own;
      event_version = refl;
      event_correlation = refl;
      other_kept =
          find_beside (is_source t id) (is_source u j) db.sources (syncing now s)
            (λ x e. another t id u j x other e) own;
      reservations_kept = refl;
      cleanups_kept = refl;
    }

module _ (directory : Directory) (user t id u j : ℕ) (correlation : String) (now : ℕ) (db : Db)
    (other : (t ≢ u) ⊎ (id ≢ j)) where
  found-Start :
      (o : Option KnowledgeSource)
      → is_permitted directory user t ≡ true
      → get_knowledge_source_for_update t id db ≡ o
      → Start directory user t id u j now correlation db
          (transaction (start_found t id correlation now o) db)
  unfolding add_outbox_event
  found-Start none p e = not_there p e
  found-Start (some s) p e = elim (Bool-cases (is_disabled s.status)) [
    | inl off ↦ rw off (not_enabled s p e off)
    | inr on ↦ rw on (
        started s (syncing now s) (sync_event t correlation (syncing now s))
          (after_start t id correlation now s db) p
          (after_start-IsStarted t id u j now correlation db s other e on))
  ]

  -- Starting a sync ends in one of four ways. Without the permission, the source, or where it is
  -- disabled, it raises the error of that case and changes no table. Else, in one transaction, the
  -- version of the source goes up by one, its status is syncing and its error cleared, exactly one
  -- event is added to the outbox, with this tenant, source and new version, and any other source
  -- and all reservations and cleanups stay as they were.
  pub start_source_sync-Start :
      Start directory user t id u j now correlation db
        (start_source_sync directory user t id correlation now db)
  unfolding start_source_sync start_body require_permission
  start_source_sync-Start = elim (Bool-cases (is_permitted directory user t)) [
    | inl allowed ↦ rw allowed (found-Start (get_knowledge_source_for_update t id db) allowed refl)
    | inr refused ↦ rw refused (not_permitted refused)
  ]
