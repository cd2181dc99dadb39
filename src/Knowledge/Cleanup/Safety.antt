-- ===== src/Knowledge/Cleanup/Safety.antt =====
-- When a replay may delete an object, and what it leaves in the tables.
use serviq.Common.{
  ℕ, ◌+◌, ◌<◌, ◌≡◌, ◌≢◌, sym, ◌∙◌, ◌⊎◌, inl, inr, refl, String, Option, none, some, Bool, true,
  false, arith, leb, str_eq, Bool-cases,
}
use serviq.Knowledge.Rows.{Db, KnowledgeUploadCleanup}
use serviq.Knowledge.Tx.{Tx, Result, ok, err, ◌>>=◌, transaction_cases, if_inv}
use serviq.Knowledge.Repository.{release_upload_reservation_for_cleanup}
use serviq.Knowledge.Repository.Cleanups.{
  is_referenced, is_succeeded, is_exhausted, is_unresolved, put_cleanup,
  get_upload_cleanup_for_update, mark_upload_cleanup_exhausted,
}
use serviq.Knowledge.Cleanup.{
  max_attempts, Claimed, done, claim, CleanupClaim, Outcome, require_cleanup, found_or_raise,
  raw_key_value, key_mismatch,
}
use serviq.Knowledge.Cleanup.Rules.{unresolved_rest}
use serviq.Knowledge.Cleanup.Replay.{
  exhaust, start_attempt, attempted, claim_unresolved, claim_row, claim_due_cleanup, needs_presence,
  is_not_due, released, Surroundings, execute_claim, after_claim, reconcile_upload_cleanup,
}

released-ne-claim :
    (t id : ℕ) (o : Outcome) (c : KnowledgeUploadCleanup) (k : CleanupClaim) (db db' : Db)
    → released t id o c db ≢ ok (claim k, db')
unfolding release_upload_reservation_for_cleanup
released-ne-claim t id o c k db db' h = cc

exhaust-ne-claim :
    (t id : ℕ) (code : String) (now : ℕ) (c : KnowledgeUploadCleanup) (k : CleanupClaim)
    (db db' : Db)
    → exhaust t id code now c db ≢ ok (claim k, db')
unfolding exhaust mark_upload_cleanup_exhausted
exhaust-ne-claim t id code now c k db db' h = elim (Bool-cases (is_unresolved c.status)) [
  | inl unresolved ↦ ground (arith, unresolved)
  | inr resolved ↦ ground (arith, resolved)
]

-- The row behind a claim, and what the claim wrote.
pub record Grounds (uuid_text : ℕ → String) (t id now : ℕ) (k : CleanupClaim) (db db' : Db)
    (c : KnowledgeUploadCleanup) : Type 0 where
  pub unresolved : is_unresolved c.status ≡ true
  pub due : is_not_due c.next_attempt_at now ≡ false
  pub attempts : c.attempt_count < max_attempts
  pub canonical :
      str_eq (raw_key_value uuid_text c.tenant_id c.source_id c.object_id) c.object_key ≡ true
  pub confirmation : k.requires_presence_confirmation ≡ needs_presence c
  pub counted : k.attempt_count ≡ c.attempt_count + 1
  pub written : db' ≡ put_cleanup t id (attempted now c) db

claim_unresolved_inv :
    (uuid_text : ℕ → String) (t id now : ℕ) (c : KnowledgeUploadCleanup) (k : CleanupClaim)
    (db db' : Db)
    → is_unresolved c.status ≡ true
    → claim_unresolved uuid_text t id now c db ≡ ok (claim k, db')
    → Grounds uuid_text t id now k db db' c
unfolding claim_unresolved start_attempt
claim_unresolved_inv uuid_text t id now c k db db' unresolved h =
    elim (if_inv (is_not_due c.next_attempt_at now) _ _ db _ h) [
      | inl (early, p) ↦ cc
      | inr (due, p) ↦ elim (if_inv (leb max_attempts c.attempt_count) _ _ db _ p) [
        | inl (many, q) ↦ absurd (exhaust-ne-claim t id _ now c k db db' q)
        | inr (few, q) ↦
            elim (if_inv
              (str_eq (raw_key_value uuid_text c.tenant_id c.source_id c.object_id) c.object_key) _
              _ db _ q) [
                | inr (bad, r) ↦ absurd (exhaust-ne-claim t id key_mismatch now _ k db db' r)
                | inl (canonical, r) ↦ record {
                  unresolved = unresolved;
                  due = due;
                  attempts = ground (arith, few);
                  canonical = canonical;
                  confirmation = ground (arith, r);
                  counted = ground (arith, r);
                  written = ground (arith, r);
                }
              ]
      ]
    ]

claim_row_inv :
    (uuid_text : ℕ → String) (t id now : ℕ) (c : KnowledgeUploadCleanup) (k : CleanupClaim)
    (db db' : Db)
    → claim_row uuid_text t id now c db ≡ ok (claim k, db')
    → Grounds uuid_text t id now k db db' c
unfolding claim_row
claim_row_inv uuid_text t id now c k db db' h = elim (if_inv (is_referenced c.status) _ _ db _ h) [
  | inl (a, p) ↦ absurd (released-ne-claim t id _ c k db db' p)
  | inr (a, p) ↦ elim (if_inv (is_succeeded c.status) _ _ db _ p) [
    | inl (b, q) ↦ absurd (released-ne-claim t id _ c k db db' q)
    | inr (b, q) ↦ elim (if_inv (is_exhausted c.status) _ _ db _ q) [
      | inl (d, r) ↦ cc
      | inr (d, r) ↦
          claim_unresolved_inv uuid_text t id now c k db db' (unresolved_rest c.status a b d) r
    ]
  ]
]

pub require_inv :
    {A : Type 0} (t id : ℕ) (f : KnowledgeUploadCleanup → Tx A) (db : Db) (r : A × Db)
    → (require_cleanup t id >>= f) db ≡ ok r
    → (c : KnowledgeUploadCleanup) × (get_upload_cleanup_for_update t id db ≡ some c)
      × (f c db ≡ ok r)
unfolding require_cleanup
require_inv {A} t id f db r h = go (get_upload_cleanup_for_update t id db) refl h
  where
    go :
        (found : Option KnowledgeUploadCleanup)
        → get_upload_cleanup_for_update t id db ≡ found
        → (found_or_raise found >>= f) db ≡ ok r
        → (c : KnowledgeUploadCleanup) × (get_upload_cleanup_for_update t id db ≡ some c)
          × (f c db ≡ ok r)
    go none e k = absurd (cc)
    go (some c) e k = (c, e, k)

-- What a committed claim found of its row, and what it wrote.
pub claim_inv :
    (uuid_text : ℕ → String) (t id now : ℕ) (k : CleanupClaim) (db db' : Db)
    → claim_due_cleanup uuid_text t id now db ≡ (ok (claim k), db')
    → (c : KnowledgeUploadCleanup) × (get_upload_cleanup_for_update t id db ≡ some c)
      × Grounds uuid_text t id now k db db' c
unfolding claim_due_cleanup
claim_inv uuid_text t id now k db db' h =
    elim (transaction_cases (require_cleanup t id >>= claim_row uuid_text t id now) db) [
      | inl (e, failed, undone) ↦ cc
      | inr (a, db1, ran, committed) ↦
          let eq : ok (a, db1) ≡ ok (claim k, db') = ground (arith, committed, h) in
          let (c, found, p) = require_inv t id (claim_row uuid_text t id now) db (a, db1) ran in
          (c, found, claim_row_inv uuid_text t id now c k db db' (p ∙ eq))
    ]

abbrev Deleting : CleanupClaim → Surroundings → Type 0
Deleting k s = (k.requires_presence_confirmation ≡ false) ⊎ (s.exists ≡ some true)

execute_claim_deletes :
    (t id : ℕ) (s : Surroundings) (k : CleanupClaim) (db : Db)
    → (execute_claim t id s k db).delete_called ≡ true
    → Deleting k s
unfolding execute_claim
execute_claim_deletes t id s k db h = go k.requires_presence_confirmation s.exists refl refl
  where
    go :
        (b : Bool) (o : Option Bool)
        → k.requires_presence_confirmation ≡ b
        → s.exists ≡ o
        → Deleting k s
    go false o p q = inl p
    go true (some true) p q = inr q
    go true (some false) p q = ground (arith, h, p, q)
    go true none p q = ground (arith, h, p, q)

after_claim_deletes :
    (t id : ℕ) (s : Surroundings) (r : Result Claimed × Db)
    → (after_claim t id s r).delete_called ≡ true
    → (k : CleanupClaim) × (r ≡ (ok (claim k), r.1)) × Deleting k s
after_claim_deletes t id s (err e, db) h = absurd (cc)
after_claim_deletes t id s (ok (done x), db) h = absurd (cc)
after_claim_deletes t id s (ok (claim k), db) h = (k, refl, execute_claim_deletes t id s k db h)

-- A replay calls delete on the object store only for a row that was unresolved, due, below three
-- attempts and bound to its own object when it was claimed, so never for a referenced object; and
-- where the outcome of the PUT is unknown, only after the store has shown the object.
pub delete_needs_grounds :
    (uuid_text : ℕ → String) (t id now : ℕ) (s : Surroundings) (db : Db)
    → (reconcile_upload_cleanup uuid_text t id now s db).delete_called ≡ true
    → (c : KnowledgeUploadCleanup) × (get_upload_cleanup_for_update t id db ≡ some c)
      × (is_unresolved c.status ≡ true)
      × (is_not_due c.next_attempt_at now ≡ false)
      × (c.attempt_count < max_attempts)
      × (str_eq (raw_key_value uuid_text c.tenant_id c.source_id c.object_id) c.object_key ≡ true)
      × ((needs_presence c ≡ false) ⊎ (s.exists ≡ some true))
unfolding reconcile_upload_cleanup
delete_needs_grounds uuid_text t id now s db h =
    let (k, claimed, may) =
      after_claim_deletes t id s (claim_due_cleanup uuid_text t id now db) h in
    let (c, found, g) = claim_inv uuid_text t id now k db _ claimed in
    (c, found, g.unresolved, g.due, g.attempts, g.canonical, confirmed c k g.confirmation may)
  where
    confirmed :
        (c : KnowledgeUploadCleanup) (k : CleanupClaim)
        → k.requires_presence_confirmation ≡ needs_presence c
        → Deleting k s
        → (needs_presence c ≡ false) ⊎ (s.exists ≡ some true)
    confirmed c k e (inl p) = inl (sym e ∙ p)
    confirmed c k e (inr q) = inr q
