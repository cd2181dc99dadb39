-- ===== src/Worker/Sync/Objects.antt =====
-- What a run may write to the object store, and the mark of a failure.
use mathlib.Core.Option
use serviq.Common.{
  ℕ, ◌≡◌, ◌≢◌, ◌⊎◌, ◌∙◌, ap, ◌==◌, ==_iff, String, Option, none, some, subst, inl, inr, true, false,
  not, ◌&&◌, List, [], ◌∷◌, arith, ltb, Bool-cases, refl, find_where, update_where, if_holds,
  if◌then◌else◌,
}
use serviq.Worker.Sync.{
  Db, Source, SourceStatus, SourceType, KnowledgeSyncCommand, FetchedContent, is_disabled,
  is_source, load_source, completed_handoff_exists, may_fail, failed_with,
  mark_matching_source_failed,
}
use serviq.Worker.Sync.Run.{
  Outside, Content, got, stop, Ran, fetch_content, is_url, is_sitemap, preflight_replay_mismatch,
  store_and_persist, with_content, sync_current, sync_loaded, run_knowledge_sync, sync_raw_key,
  fetched_url, fetch_url, fetch_host, Fetch, body, fetch_error,
}

-- The tables that the replay check of a run sees, which is the last look before a write.
abbrev pub seen_by_replay_check : Outside → Db → Db
seen_by_replay_check o db = o.others 1 (o.others 0 db)

-- A written object stands under the command's own key, the version's handoff was not complete at
-- the check, and no document of the version had other content at the replay check.
pub record IsSafePut (o : Outside) (c : KnowledgeSyncCommand) (db : Db) (key : String)
    (bytes : List ℕ) : Type 0 where
  pub own_key : key ≡ sync_raw_key o c
  pub unread : completed_handoff_exists c (o.others 0 db) ≡ false
  pub consistent : preflight_replay_mismatch c (o.sha256 bytes) (seen_by_replay_check o db) ≡ false

abbrev PutIsSafe : Outside → KnowledgeSyncCommand → Db → Option (String × List ℕ) → Type 0
PutIsSafe o c db none = Unit
PutIsSafe o c db (some (key, bytes)) = IsSafePut o c db key bytes

abbrev HasOwnKey : Outside → KnowledgeSyncCommand → Content → Type 0
HasOwnKey o c (stop r) = Unit
HasOwnKey o c (got f) = f.raw_object_key ≡ sync_raw_key o c

fetched_url-HasOwnKey :
    (o : Outside) (c : KnowledgeSyncCommand) (x : Fetch) → HasOwnKey o c (fetched_url o c x)
fetched_url-HasOwnKey o c (body b u t) = refl
fetched_url-HasOwnKey o c (fetch_error e r) = tt

fetch_host-HasOwnKey :
    (o : Outside) (c : KnowledgeSyncCommand) (uri : String) (h : Option String)
    → HasOwnKey o c (fetch_host o c uri h)
fetch_host-HasOwnKey o c uri none = tt
fetch_host-HasOwnKey o c uri (some h) = fetched_url-HasOwnKey o c (o.fetch uri h)

fetch_url-HasOwnKey :
    (o : Outside) (c : KnowledgeSyncCommand) (u : Option String) → HasOwnKey o c (fetch_url o c u)
unfolding fetch_url
fetch_url-HasOwnKey o c none = tt
fetch_url-HasOwnKey o c (some u) = fetch_host-HasOwnKey o c u (o.hostname u)

-- Of the sources' types only a URL's content is written, and that one has the command's own key.
KeyOfUrl :
    (o : Outside) (c : KnowledgeSyncCommand) (s : Source) (f : FetchedContent)
    → fetch_content o c s ≡ got f
    → is_url s.source_type ≡ true
    → f.raw_object_key ≡ sync_raw_key o c
unfolding fetch_content
KeyOfUrl o c s f h u = go s.source_type refl
  where
    go : (t : SourceType) → s.source_type ≡ t → f.raw_object_key ≡ sync_raw_key o c
    go SourceType.url e = subst (HasOwnKey o c) (rw e at h) (fetch_url-HasOwnKey o c s.source_uri)
    go SourceType.sitemap e = absurd (cc (rw e at u))
    go SourceType.pdf e = absurd (cc (rw e at u))
    go SourceType.markdown e = absurd (cc (rw e at u))
    go SourceType.text e = absurd (cc (rw e at u))

abbrev RunIsSafe : Outside → KnowledgeSyncCommand → Db → Ran → Type 0
RunIsSafe o c db r = PutIsSafe o c db r.put

stored_is_safe :
    (o : Outside) (c : KnowledgeSyncCommand) (s : Source) (f : FetchedContent) (db : Db)
    → completed_handoff_exists c (o.others 0 db) ≡ false
    → fetch_content o c s ≡ got f
    → RunIsSafe o c db (store_and_persist o c s f (seen_by_replay_check o db))
unfolding store_and_persist
stored_is_safe o c s f db unread h =
    if_holds (RunIsSafe o c db)
      (preflight_replay_mismatch c (o.sha256 f.raw_bytes) (seen_by_replay_check o db)) _ _ (λ _. tt)
      λ same.
        if_holds (RunIsSafe o c db) (is_url s.source_type && not o.put_ok) _ _ (λ _. tt)
          λ _. elim (Bool-cases (is_url s.source_type)) [
            | inl url ↦
                rw url
                  (record { own_key = KeyOfUrl o c s f h url; unread = unread; consistent = same })
            | inr file ↦ rw file tt
          ]

with_content_is_safe :
    (o : Outside) (c : KnowledgeSyncCommand) (s : Source) (k : Content) (db : Db)
    → completed_handoff_exists c (o.others 0 db) ≡ false
    → fetch_content o c s ≡ k
    → RunIsSafe o c db (with_content o c s (o.others 0 db) k)
with_content_is_safe o c s (stop r) db unread h = tt
with_content_is_safe o c s (got f) db unread h = stored_is_safe o c s f db unread h

sync_loaded_is_safe :
    (o : Outside) (c : KnowledgeSyncCommand) (found : Option Source) (db : Db)
    → RunIsSafe o c db (sync_loaded o c found db)
unfolding sync_loaded sync_current
sync_loaded_is_safe o c none db = tt
sync_loaded_is_safe o c (some s) db =
    if_holds (RunIsSafe o c db) (is_disabled s.status) _ _ (λ _. tt)
      λ _.
        if_holds (RunIsSafe o c db) (ltb c.sync_version s.sync_version) _ _ (λ _. tt)
          λ _.
            if_holds (RunIsSafe o c db) (ltb s.sync_version c.sync_version) _ _ (λ _. tt)
              λ _.
                if_holds (RunIsSafe o c db) (is_sitemap s.source_type) _ _ (λ _. tt)
                  λ _.
                    if_holds (RunIsSafe o c db) (completed_handoff_exists c (o.others 0 db)) _ _
                      (λ _. tt)
                      λ unread. with_content_is_safe o c s (fetch_content o c s) db unread refl

-- A run writes an object only under its own command's key, only where the version's handoff was
-- not complete at its check, and only bytes that agree with the version's document at the replay
-- check.
pub put_is_safe :
    (o : Outside) (c : KnowledgeSyncCommand) (db : Db) (key : String) (bytes : List ℕ)
    → (run_knowledge_sync o c db).put ≡ some (key, bytes)
    → IsSafePut o c db key bytes
unfolding run_knowledge_sync
put_is_safe o c db key bytes h =
    subst (PutIsSafe o c db) h (sync_loaded_is_safe o c (load_source c db) db)

abbrev marked : KnowledgeSyncCommand → String → Source → Source
marked c code s = if may_fail c s then failed_with code s else s

marked_source :
    (c q : KnowledgeSyncCommand) (code : String) (ss : List Source)
    → find_where (is_source q) (update_where (may_fail c) (failed_with code) ss)
      ≡ Option.map (marked c code) (find_where (is_source q) ss)
marked_source c q code [] = ground arith
marked_source c q code (x ∷ ss) = ground (arith, marked_source c q code ss)

mark_failed_reads :
    (c q : KnowledgeSyncCommand) (code : String) (db : Db)
    → load_source q (mark_matching_source_failed c code db)
      ≡ Option.map (marked c code) (load_source q db)
unfolding mark_matching_source_failed load_source
mark_failed_reads c q code db = marked_source c q code db.sources

-- The reasons for which the mark of `c` passes a source over.
pub data IsSpared (c : KnowledgeSyncCommand) (k : Source) : Type 0 where
  other_source : k.id ≢ c.source_id → IsSpared c k
  other_tenant : k.tenant_id ≢ c.tenant_id → IsSpared c k
  other_version : k.sync_version ≢ c.sync_version → IsSpared c k
  disabled : k.status ≡ SourceStatus.disabled → IsSpared c k

-- What the mark of `c` makes of a source `k`.
pub data FailureMark (c : KnowledgeSyncCommand) (code : String) (k k' : Source) : Type 0 where
  failed :
      k.id ≡ c.source_id
      → k.tenant_id ≡ c.tenant_id
      → k.sync_version ≡ c.sync_version
      → k.status ≢ SourceStatus.disabled
      → k'.status ≡ SourceStatus.failed
      → k'.last_error_code ≡ some code
      → k'.sync_version ≡ k.sync_version
      → FailureMark c code k k'
  spared : IsSpared c k → k' ≡ k → FailureMark c code k k'

disabled_or_not :
    (s : SourceStatus)
    → ((s ≡ SourceStatus.disabled) × (is_disabled s ≡ true))
      ⊎ ((s ≢ SourceStatus.disabled) × (is_disabled s ≡ false))
disabled_or_not SourceStatus.disabled = inl (refl, refl)
disabled_or_not SourceStatus.pending = inr ((λ e. cc), refl)
disabled_or_not SourceStatus.syncing = inr ((λ e. cc), refl)
disabled_or_not SourceStatus.ready = inr ((λ e. cc), refl)
disabled_or_not SourceStatus.failed = inr ((λ e. cc), refl)

same_or_not : (m n : ℕ) → ((m ≡ n) × (m == n ≡ true)) ⊎ ((m ≢ n) × (m == n ≡ false))
same_or_not m n = elim (Bool-cases (m == n)) [
  | inl e ↦ inl ((==_iff m n).0 e, e)
  | inr e ↦ inr ((λ h. ground (arith, (==_iff m n).1 h, e)), e)
]

marked-FailureMark :
    (c : KnowledgeSyncCommand) (code : String) (k : Source) → FailureMark c code k (marked c code k)
marked-FailureMark c code k = elim (same_or_not k.id c.source_id) [
  | inr (other, e) ↦ spared (other_source other) (rw e refl)
  | inl (source, e) ↦ elim (same_or_not k.tenant_id c.tenant_id) [
    | inr (other, f) ↦ spared (other_tenant other) (rw (e, f) refl)
    | inl (tenant, f) ↦ elim (same_or_not k.sync_version c.sync_version) [
      | inr (other, g) ↦ spared (other_version other) (rw (e, f, g) refl)
      | inl (version, g) ↦ elim (disabled_or_not k.status) [
        | inl (off, d) ↦ spared (disabled off) (rw (e, f, g, d) refl)
        | inr (on, d) ↦ rw (e, f, g, d) (failed source tenant version on refl refl refl)
      ]
    ]
  ]
]

-- Marking a failure touches only its own version: a source that a command reads before the mark is
-- read after it with the status failed, the code and the same version, where it is the source of
-- the mark's command, at its version and not disabled; else it is read as it was.
pub mark_matching_source_failed-FailureMark :
    (c q : KnowledgeSyncCommand) (code : String) (db : Db) (k : Source)
    → load_source q db ≡ some k
    → (k' : Source) × (load_source q (mark_matching_source_failed c code db) ≡ some k')
      × FailureMark c code k k'
mark_matching_source_failed-FailureMark c q code db k h = (
  marked c code k,
  mark_failed_reads c q code db ∙ ap (Option.map (marked c code)) h,
  marked-FailureMark c code k,
)
