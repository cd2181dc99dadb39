-- ===== src/Worker/UploadCleanup/Refines.antt =====
-- The claim of services/worker/app/jobs/knowledge_upload_cleanup.py against that of
-- services/api/app/modules/knowledge/cleanup.py, on the same table.
use serviq.Common.{
  ℕ, ◌+◌, ◌≤◌, ◌≡◌, refl, sym, ap, ◌∙◌, inl, inr, ◌⊎◌, String, Option, none, some, Bool, true,
  false, ◌&&◌, List, [], ◌∷◌, arith, leb, ◌==◌, str_eq, Bool-cases, if◌then◌else◌, count_where,
  find_where, find_where_holds, update_where, count_where_imp, some-injective, ==_refl,
}
use serviq.Common.Tx.{ok, transaction, transaction_same, bind_lem, ◌>>=◌}
use serviq.Knowledge.Rows.{Db, KnowledgeUploadCleanup, CleanupStatus}
use serviq.Knowledge.Repository.Cleanups.{
  is_cleanup, is_prepared, is_unresolved, is_referenced, is_succeeded, is_exhausted,
  get_upload_cleanup_for_update, put_cleanup, mark_upload_cleanup_exhausted,
}
use serviq.Knowledge.Cleanup.{raw_key_value, require_cleanup, found_or_raise}
use serviq.Knowledge.Cleanup.Replay as Api
use serviq.Worker.UploadCleanup.{
  is_open_status, is_prepared_status, is_empty_code, put_outcome_ambiguous, is_due_at, is_open_row,
  set_rows, as_claimed, as_exhausted, is_malformed, code_or_default, first_error, lease_until,
  max_attempts, key_mismatch, claim_row,
}

untouched :
    (q : KnowledgeUploadCleanup → Bool) (f : KnowledgeUploadCleanup → KnowledgeUploadCleanup)
    (cs : List KnowledgeUploadCleanup)
    → count_where q cs ≤ 0
    → update_where q f cs ≡ cs
untouched q f [] h = refl
untouched q f (x ∷ cs) h = ground (arith, h, untouched q f cs)

count_le :
    (p q : KnowledgeUploadCleanup → Bool) (cs : List KnowledgeUploadCleanup)
    → ((x : KnowledgeUploadCleanup) → q x ≡ true → p x ≡ true)
    → count_where q cs ≤ count_where p cs
count_le p q cs k = count_where_imp q p cs k

-- Two updates that change the same row in the same way agree.
update_agree :
    (p q : KnowledgeUploadCleanup → Bool) (f g : KnowledgeUploadCleanup → KnowledgeUploadCleanup)
    (c : KnowledgeUploadCleanup) (cs : List KnowledgeUploadCleanup)
    → ((x : KnowledgeUploadCleanup) → q x ≡ true → p x ≡ true)
    → count_where p cs ≤ 1
    → find_where p cs ≡ some c
    → q c ≡ true
    → f c ≡ g c
    → update_where q f cs ≡ update_where p g cs
update_agree p q f g c [] k few e h same = refl
update_agree p q f g c (x ∷ cs) k few e h same = elim (Bool-cases (p x)) [
  | inl b ↦
      let one : x ≡ c = some-injective x c (rw b at e) in
      let rest : count_where p cs ≤ 0 = ground (arith, few, b) in
      let changed : f x ≡ g x = ap f one ∙ same ∙ ap g (sym one) in
      let hit : q x ≡ true = ap q one ∙ h in
      rw (b, hit)
        (ap (λ y. y ∷ update_where q f cs) changed
          ∙ ap (◌∷◌ (g x)) (
              untouched q f cs (omega (arith, rest, count_where_imp q p cs k))
              ∙ sym (untouched p g cs rest)))
  | inr b ↦
      let miss : q x ≡ false = ground (arith, b, k x) in
      rw (b, miss)
        (ap (◌∷◌ x) (update_agree p q f g c cs k (ground (arith, few, b)) (rw b at e) h same))
]

-- The two programs read a status and a code in the same way.
prepared_agree : (s : CleanupStatus) → is_prepared_status s ≡ is_prepared s
prepared_agree CleanupStatus.prepared = refl
prepared_agree CleanupStatus.pending = refl
prepared_agree CleanupStatus.referenced = refl
prepared_agree CleanupStatus.succeeded = refl
prepared_agree CleanupStatus.exhausted = refl

open_agree :
    (s : CleanupStatus)
    → is_open_status s ≡ true
    → (is_unresolved s ≡ true)
      × (is_referenced s ≡ false)
      × (is_succeeded s ≡ false)
      × (is_exhausted s ≡ false)
open_agree CleanupStatus.prepared h = (refl, refl, refl, refl)
open_agree CleanupStatus.pending h = (refl, refl, refl, refl)
open_agree CleanupStatus.referenced h = ground arith
open_agree CleanupStatus.succeeded h = ground arith
open_agree CleanupStatus.exhausted h = ground arith

code_agree :
    (code : Option String)
    → is_empty_code code ≡ false
    → code_or_default code ≡ Api.code_or_default code
code_agree none h = refl
code_agree (some code) h = ground (arith, h)

error_agree :
    (s : CleanupStatus) (code : Option String)
    → first_error s code ≡ elim code [
      | none ↦ if is_prepared s then some put_outcome_ambiguous else none
      | some x ↦ some x
    ]
error_agree s none = ground (arith, prepared_agree s)
error_agree s (some x) = refl

claimed_agree :
    (now : ℕ) (c : KnowledgeUploadCleanup)
    → as_claimed
        (c.attempt_count + 1)
        (lease_until now (c.attempt_count + 1))
        (first_error c.status c.last_error_code)
        now
        c
      ≡ Api.attempted now c
claimed_agree now c =
    ap (λ e. as_claimed (c.attempt_count + 1) (lease_until now (c.attempt_count + 1)) e now c)
      (error_agree c.status c.last_error_code)

module _ (uuid_text : ℕ → String) (t id now : ℕ) (c : KnowledgeUploadCleanup) (db : Db)
    (found : find_where (is_cleanup t id) db.cleanups ≡ some c)
    (unique : count_where (is_cleanup t id) db.cleanups ≤ 1)
    (wellformed : is_malformed c ≡ false) where
  is_the_row : (c.id == id) && (c.tenant_id == t) ≡ true
  is_the_row = ground (arith, find_where_holds (is_cleanup t id) db.cleanups c found)

  is_open : is_open_status c.status ≡ true
  unfolding is_malformed
  is_open = ground (arith, wellformed)

  -- An update by the worker and the flush of the API's row leave the same table.
  same_table :
      (f : KnowledgeUploadCleanup → KnowledgeUploadCleanup) (row : KnowledgeUploadCleanup)
      → f c ≡ row
      → set_rows (is_open_row c.id c.tenant_id) f db ≡ put_cleanup t id row db
  same_table f row e =
      ap (λ cs. record db { cleanups = cs })
        (update_agree (is_cleanup t id) (is_open_row c.id c.tenant_id) f (λ _. row) c db.cleanups
          (λ x h. ground (arith, h, is_the_row)) unique found
          (ground (arith, is_open, ==_refl c.id, ==_refl c.tenant_id)) e)

  key_ok : Bool
  key_ok = str_eq (raw_key_value uuid_text c.tenant_id c.source_id c.object_id) c.object_key

  api_claim :
      Api.claim_due_cleanup uuid_text t id now db
      ≡ transaction (Api.claim_unresolved uuid_text t id now c) db
  unfolding Api.claim_due_cleanup require_cleanup get_upload_cleanup_for_update Api.claim_row
  api_claim =
      transaction_same (require_cleanup t id >>= Api.claim_row uuid_text t id now)
        (Api.claim_unresolved uuid_text t id now c) db
        (bind_lem (require_cleanup t id) (Api.claim_row uuid_text t id now) db c db locked
          ∙ unresolved)
    where
      locked : require_cleanup t id db ≡ ok (c, db)
      locked = ap (λ o. found_or_raise o db) found

      unresolved :
          Api.claim_row uuid_text t id now c db ≡ Api.claim_unresolved uuid_text t id now c db
      unresolved = let (_, a, b, d) = open_agree c.status is_open in rw (a, b, d) refl

  api_start :
      Api.is_not_due c.next_attempt_at now ≡ false
      → leb 3 c.attempt_count ≡ false
      → key_ok ≡ true
      → (transaction (Api.claim_unresolved uuid_text t id now c) db).1
        ≡ put_cleanup t id (Api.attempted now c) db
  unfolding key_ok Api.claim_unresolved Api.start_attempt
  api_start due few key = rw (due, few, key) refl

  api_exhaust :
      (code : String) (row : KnowledgeUploadCleanup)
      → is_unresolved row.status ≡ true
      → (transaction (Api.exhaust t id code now row) db).1
        ≡ put_cleanup t id (as_exhausted row.attempt_count code now row) db
  unfolding Api.exhaust mark_upload_cleanup_exhausted
  api_exhaust code row h = rw h refl

  worker_start :
      leb 3 c.attempt_count ≡ false
      → key_ok ≡ true
      → (transaction (claim_row uuid_text now c) db).1 ≡ put_cleanup t id (Api.attempted now c) db
  unfolding key_ok claim_row
  worker_start few key =
      rw (wellformed, few, key)
        (same_table
          (as_claimed (c.attempt_count + 1) (lease_until now (c.attempt_count + 1))
            (first_error c.status c.last_error_code) now)
          (Api.attempted now c) (claimed_agree now c))

  worker_worn :
      leb 3 c.attempt_count ≡ true
      → key_ok ≡ true
      → (transaction (claim_row uuid_text now c) db).1
        ≡ put_cleanup t id
            (as_exhausted c.attempt_count (code_or_default c.last_error_code) now c)
            db
  unfolding key_ok claim_row
  worker_worn worn key =
      rw (wellformed, worn, key)
        (same_table (as_exhausted c.attempt_count (code_or_default c.last_error_code) now) _ refl)

  worker_mismatch :
      key_ok ≡ false
      → (transaction (claim_row uuid_text now c) db).1
        ≡ put_cleanup t id (as_exhausted 3 key_mismatch now c) db
  unfolding key_ok claim_row
  worker_mismatch key = rw (wellformed, key) (same_table (as_exhausted 3 key_mismatch now) _ refl)

  tables_agree :
      Api.is_not_due c.next_attempt_at now ≡ false
      → (key : Bool) → (worn : Bool) → key_ok ≡ key
      → leb 3 c.attempt_count ≡ worn
      → (key ≡ true) ⊎ (worn ≡ false)
      → (transaction (claim_row uuid_text now c) db).1
        ≡ (transaction (Api.claim_unresolved uuid_text t id now c) db).1
  unfolding Api.claim_unresolved key_ok is_malformed
  tables_agree due true false k w _ = worker_start w k ∙ sym (api_start due w k)
  tables_agree due true true k w _ =
      worker_worn w k
      ∙ ap (λ code. put_cleanup t id (as_exhausted c.attempt_count code now c) db)
          (code_agree c.last_error_code (ground (arith, wellformed)))
      ∙ sym (
          rw (due, w)
            (api_exhaust (Api.code_or_default c.last_error_code) c (open_agree c.status is_open).0))
  tables_agree due false false k w _ =
      worker_mismatch k
      ∙ sym (
          rw (due, w, k)
            (api_exhaust key_mismatch (record c { attempt_count = 3 })
              (open_agree c.status is_open).0))
  tables_agree due false true k w h = absurd (ground arith)

-- The worker claims a row as the API does: on a due, well-formed, unresolved row, the only one of
-- its tenant and id, both leave the same tables, where the key is the row's own or attempts are
-- left.
pub claim_row-claim_due_cleanup :
    (uuid_text : ℕ → String) (t id now : ℕ) (c : KnowledgeUploadCleanup) (db : Db)
    → find_where (is_cleanup t id) db.cleanups ≡ some c
    → count_where (is_cleanup t id) db.cleanups ≤ 1
    → is_malformed c ≡ false
    → is_due_at now c.next_attempt_at ≡ true
    → (str_eq (raw_key_value uuid_text c.tenant_id c.source_id c.object_id) c.object_key ≡ true)
      ⊎ (leb max_attempts c.attempt_count ≡ false)
    → (transaction (claim_row uuid_text now c) db).1
      ≡ (Api.claim_due_cleanup uuid_text t id now db).1
unfolding key_ok
claim_row-claim_due_cleanup uuid_text t id now c db found unique wellformed due grounds =
    tables_agree uuid_text t id now c db found unique wellformed (not_due c.next_attempt_at due)
      (str_eq (raw_key_value uuid_text c.tenant_id c.source_id c.object_id) c.object_key)
      (leb 3 c.attempt_count) refl refl grounds
    ∙ ap (λ r. r.1) (sym (api_claim uuid_text t id now c db found unique wellformed))
  where
    not_due : (next : Option ℕ) → is_due_at now next ≡ true → Api.is_not_due next now ≡ false
    not_due none h = ground arith
    not_due (some due) h = ground (arith, h)
