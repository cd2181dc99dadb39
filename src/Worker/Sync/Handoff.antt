-- ===== src/Worker/Sync/Handoff.antt =====
-- One document for each source version, and one parse obligation for each document.
use serviq.Common.{
  ℕ, ◌≤◌, ◌≡◌, inl, inr, refl, String, Option, none, some, Bool, true, List, [], ◌∷◌, ◌++◌, arith,
  ltb, str_eq, is_some, count_where, find_where, count_where-append, Bool-cases, Option-cases,
  if_holds, if◌then◌else◌,
}
use serviq.Worker.Sync.{
  Db, Source, Document, ParseEvent, KnowledgeSyncCommand, KnowledgeSyncResult, FetchedContent,
  is_version, is_handoff, is_disabled, load_source, document_by_version, parse_event_exists,
  new_document, new_event, hand_off, persist_document, persist_locked,
  persist_document_and_parse_event,
}

count_none :
    {A : Type 0} (p : A → Bool) (xs : List A) → find_where p xs ≡ none → count_where p xs ≡ 0
count_none p [] h = refl
count_none p (x ∷ xs) h = ground (arith, count_none p xs)

pub find_append :
    {A : Type 0} (p : A → Bool) (xs : List A) (a : A)
    → find_where p xs ≡ none
    → p a ≡ true
    → find_where p (xs ++ a ∷ []) ≡ some a
find_append p [] a h k = ground arith
find_append p (x ∷ xs) a h k = ground (arith, find_append p xs a)

-- No source version has two documents, and no document two parse obligations.
pub record HandsOffOnce (db : Db) : Type 0 where
  pub versions : (c : KnowledgeSyncCommand) → count_where (is_version c) db.documents ≤ 1
  pub obligations : (t d : ℕ) → count_where (is_handoff t d) db.events ≤ 1

same_version :
    (c q : KnowledgeSyncCommand) (d : Document)
    → is_version c d ≡ true
    → is_version q d ≡ true
    → (e : Document) → is_version q e ≡ is_version c e
same_version c q d h k e = ground arith

find_same :
    {A : Type 0} (p q : A → Bool) (xs : List A)
    → ((a : A) → p a ≡ q a)
    → find_where p xs ≡ find_where q xs
find_same p q [] h = refl
find_same p q (x ∷ xs) h = ground (arith, h x, find_same p q xs h)

-- A row that is added where none was found makes no key double.
count_new :
    {A : Type 0} (p q : A → Bool) (xs : List A) (a : A)
    → (q a ≡ true → (x : A) → q x ≡ p x)
    → find_where p xs ≡ none
    → count_where q xs ≤ 1
    → count_where q (xs ++ a ∷ []) ≤ 1
count_new p q xs a same absent few = elim (Bool-cases (q a)) [
  | inl hit ↦ ground (
    arith,
    hit,
    count_where-append q xs (a ∷ []),
    count_none q xs,
    find_same q p xs (same hit),
    absent,
  )
  | inr miss ↦ ground (arith, miss, count_where-append q xs (a ∷ []), few)
]

events_once :
    (t d : ℕ) (e : ParseEvent) (es : List ParseEvent) (t' d' : ℕ)
    → e.tenant_id ≡ t
    → e.aggregate_id ≡ d
    → count_where (is_handoff t' d') es ≤ 1
    → count_where
        (is_handoff t' d')
        (if is_some (find_where (is_handoff t d) es) then es else es ++ e ∷ [])
      ≤ 1
events_once t d e es t' d' a b few = elim (Option-cases (find_where (is_handoff t d) es)) [
  | inr (x, found) ↦ rw found few
  | inl absent ↦
      rw absent
        (count_new (is_handoff t d) (is_handoff t' d') es e (λ hit x. ground arith) absent few)
]

pub hand_off-HandsOffOnce :
    (c : KnowledgeSyncCommand) (s : Source) (f : FetchedContent) (hash : String) (doc now : ℕ)
    (db : Db)
    → HandsOffOnce db
    → HandsOffOnce (hand_off c s f hash doc now db)
unfolding hand_off parse_event_exists
hand_off-HandsOffOnce c s f hash doc now db once = record {
  versions = once.versions;
  obligations = λ t d.
      events_once c.tenant_id doc (new_event c s f hash doc) db.events t d refl refl
        (once.obligations t d);
}

abbrev OnceAfter : KnowledgeSyncResult × Db → Type 0
OnceAfter (r, db) = HandsOffOnce db

persist_document-HandsOffOnce :
    (c : KnowledgeSyncCommand) (s : Source) (f : FetchedContent) (hash : String) (id now : ℕ)
    (found : Option Document) (db : Db)
    → document_by_version c db ≡ found
    → HandsOffOnce db
    → HandsOffOnce (persist_document c s f hash id now found db).1
unfolding persist_document document_by_version
persist_document-HandsOffOnce c s f hash id now none db found once =
    hand_off-HandsOffOnce c s f hash id now _ (record {
      versions = λ q.
          count_new (is_version c) (is_version q) db.documents (new_document c s f hash id)
            (λ hit. same_version c q (new_document c s f hash id) (ground arith) hit) found
            (once.versions q);
      obligations = once.obligations;
    })
persist_document-HandsOffOnce c s f hash id now (some d) db found once =
    if_holds OnceAfter (str_eq d.content_hash hash) _ _
      (λ _. hand_off-HandsOffOnce c s f hash d.id now db once) (λ _. once)

persist_locked-HandsOffOnce :
    (c : KnowledgeSyncCommand) (s : Source) (f : FetchedContent) (hash : String) (id now : ℕ)
    (found : Option Source) (db : Db)
    → HandsOffOnce db
    → HandsOffOnce (persist_locked c s f hash id now found db).1
unfolding persist_locked
persist_locked-HandsOffOnce c s f hash id now none db once = once
persist_locked-HandsOffOnce c s f hash id now (some k) db once =
    if_holds OnceAfter (is_disabled k.status) _ _ (λ _. once)
      λ _.
        if_holds OnceAfter (ltb c.sync_version k.sync_version) _ _ (λ _. once)
          λ _.
            if_holds OnceAfter (ltb k.sync_version c.sync_version) _ _ (λ _. once)
              λ _. persist_document-HandsOffOnce c s f hash id now _ db refl once

-- Where no source version has two documents and no document two parse obligations, the persisting
-- transaction leaves it so, on any of its branches.
pub persist-HandsOffOnce :
    (c : KnowledgeSyncCommand) (s : Source) (f : FetchedContent) (hash : String) (id now : ℕ)
    (db : Db)
    → HandsOffOnce db
    → HandsOffOnce (persist_document_and_parse_event c s f hash id now db).1
unfolding persist_document_and_parse_event
persist-HandsOffOnce c s f hash id now db once =
    persist_locked-HandsOffOnce c s f hash id now (load_source c db) db once
