-- ===== src/Worker/UploadCleanup/Batch.antt =====
-- The counts of one batch in services/worker/app/jobs/knowledge_upload_cleanup.py.
use serviq.Common.{
  ℕ, suc, ◌+◌, ◌≤◌, ◌≡◌, refl, sym, ap, ◌∙◌, sort_by, filter_where, inl, inr, String, Option, none,
  some, Bool, ◌&&◌, List, [], ◌∷◌, arith, leb, length, length-take, Bool-cases,
}
use serviq.Common.Tx.{ok, err, bind_inv, transaction_cases, gets, pure, ◌>>=◌, Result as ResultOver}
use serviq.Knowledge.Rows.{Db, KnowledgeUploadCleanup}
use serviq.Knowledge.Cleanup.Replay.{Surroundings}
use serviq.Worker.UploadCleanup.{
  Error, value_error, Result, Outcome, CleanupClaim, CleanupBatchResult, BatchRun, Executed,
  claim_due, claim_row, claim_rows, counted, claim_due_batch, execute_claim, execute_claims,
  after_claim, one_more, claimed_counts, reconcile_due_upload_cleanups, due_before, is_claimable,
}

same_value :
    {A : Type 0} (a b : A) (db db' : Db)
    → ◌≡◌ {A = ResultOver Error (A × Db)} (ok (a, db)) (ok (b, db'))
    → a ≡ b
same_value a b db db' h = cc

claim_rows_count :
    (uuid_text : ℕ → String) (now : ℕ) (rows : List KnowledgeUploadCleanup) (db db' : Db)
    (r : List CleanupClaim × ℕ)
    → claim_rows uuid_text now rows db ≡ ok (r, db')
    → length r.0 + r.1 ≡ length rows
claim_rows_count uuid_text now [] db db' r h =
    sym (ap (λ x. length x.0 + x.1) (same_value ([], 0) r db db' h))
claim_rows_count uuid_text now (c ∷ cs) db db' r h =
    let (one, d1, _, h1) =
      bind_inv (claim_row uuid_text now c)
        (λ one. claim_rows uuid_text now cs >>= λ rest. pure (counted one rest)) db (r, db') h in
    let (rest, d2, tail, h2) =
      bind_inv (claim_rows uuid_text now cs) (λ rest. pure (counted one rest)) d1 (r, db') h1 in
    sym (ap (λ x. length x.0 + x.1) (same_value (counted one rest) r d2 db' h2))
    ∙ counted_lem one rest
    ∙ ap suc (claim_rows_count uuid_text now cs d1 d2 rest tail)
  where
    counted_lem :
        (one : Option CleanupClaim) (rest : List CleanupClaim × ℕ)
        → length (counted one rest).0 + (counted one rest).1 ≡ suc (length rest.0 + rest.1)
    counted_lem none rest = omega arith
    counted_lem (some x) rest = omega arith

same_counts :
    (r total : CleanupBatchResult)
    → ◌≡◌ {A = Result CleanupBatchResult} (ok r) (ok total)
    → r ≡ total
same_counts r total h = cc

no_counts {ℓ} :
    {A : Type ℓ} (x : Error) (r : CleanupBatchResult)
    → ◌≡◌ {A = Result CleanupBatchResult} (err x) (ok r)
    → A
no_counts x r h = absurd (cc)

-- A batch that goes on after a claim has counted its outcome.
after_claim_inv :
    (outcome : Result Outcome) (db : Db) (key : Option String) (rest : Db → BatchRun)
    (total : CleanupBatchResult)
    → (after_claim (record { outcome = outcome; tables = db; deleted = key }) rest).result
      ≡ ok total
    → (o : Outcome) × (r : CleanupBatchResult) × ((rest db).result ≡ ok r) × (one_more o r ≡ total)
after_claim_inv (err x) db key rest total h = absurd (cc)
after_claim_inv (ok o) db key rest total h = go (rest db).result refl h
  where
    go :
        (later : Result CleanupBatchResult)
        → (rest db).result ≡ later
        → (after_claim (record { outcome = ok o; tables = db; deleted = key }) rest).result
          ≡ ok total
        → (o : Outcome) × (r : CleanupBatchResult) × ((rest db).result ≡ ok r)
          × (one_more o r ≡ total)
    go (err x) e k = no_counts x total (rw e at k)
    go (ok r) e k = (o, r, e, same_counts (one_more o r) total (rw e at k))

outcomes : CleanupBatchResult → ℕ
outcomes r = r.succeeded + r.retry_scheduled + r.exhausted

one_more-outcomes :
    (o : Outcome) (r : CleanupBatchResult)
    → (outcomes (one_more o r) ≡ suc (outcomes r)) × ((one_more o r).processed ≡ r.processed)
unfolding outcomes
one_more-outcomes Outcome.succeeded r = (omega arith, refl)
one_more-outcomes Outcome.retry_scheduled r = (omega arith, refl)
one_more-outcomes Outcome.exhausted r = (omega arith, refl)

-- The counts add up once the claims are executed.
execute_claims_count :
    (around : ℕ → Surroundings) (r : CleanupBatchResult) (claims : List CleanupClaim) (db : Db)
    (total : CleanupBatchResult)
    → (execute_claims around r claims db).result ≡ ok total
    → (total.processed ≡ r.processed) × (outcomes total ≡ outcomes r + length claims)
execute_claims_count around r [] db total h =
    (ap (λ x. x.processed) (sym same), ap outcomes (sym same) ∙ omega arith)
  where
    same : r ≡ total
    same = cc
execute_claims_count around r (c ∷ cs) db total h =
    let e : Executed = execute_claim (around c.cleanup_id) c db in
    let (o, r1, ran, one) =
      after_claim_inv e.outcome e.tables e.deleted (execute_claims around r cs) total h in
    let (kept, sum) = execute_claims_count around r cs e.tables r1 ran in
    let (more, same) = one_more-outcomes o r1 in
    (
      ap (λ x. x.processed) (sym one) ∙ same ∙ kept,
      ap outcomes (sym one) ∙ more ∙ ap suc sum ∙ omega arith,
    )

-- A batch that returns has processed at most `batch_size` rows, of at most a hundred, and each of
-- them counts once: as succeeded, as scheduled for a retry or as exhausted.
pub reconcile_due_upload_cleanups-adds_up :
    (uuid_text : ℕ → String) (locked : KnowledgeUploadCleanup → Bool) (around : ℕ → Surroundings)
    (now batch_size : ℕ) (db : Db) (r : CleanupBatchResult)
    → (reconcile_due_upload_cleanups uuid_text locked around now batch_size db).result ≡ ok r
    → (r.processed ≡ r.succeeded + r.retry_scheduled + r.exhausted)
      × (r.processed ≤ batch_size)
      × (batch_size ≤ 100)
unfolding reconcile_due_upload_cleanups claim_due_batch claim_due outcomes
reconcile_due_upload_cleanups-adds_up uuid_text locked around now batch_size db r h =
    elim (Bool-cases (leb 1 batch_size && leb batch_size 100)) [
      | inr small ↦ no_counts value_error r (rw small at h)
      | inl allowed ↦
          elim (transaction_cases
            (gets (claim_due locked now batch_size) >>= claim_rows uuid_text now) db) [
              | inl (x, _, undone) ↦ no_counts x r (rw (allowed, undone) at h)
              | inr ((claims, dead), d1, ran, done) ↦
                  let rows : length claims + dead ≡ length (claim_due locked now batch_size db) =
                    claim_rows_count uuid_text now (claim_due locked now batch_size db) db d1
                      (claims, dead) ran in
                  let (kept, sum) =
                    execute_claims_count around (claimed_counts claims dead) claims d1 r
                      (rw (allowed, done) at h) in
                  (
                    omega (arith, rows, kept, sum),
                    omega (arith, rows, kept, length-take batch_size (in_order)),
                    ground (arith, allowed),
                  )
            ]
    ]
  where
    in_order : List KnowledgeUploadCleanup
    in_order = sort_by due_before (filter_where (is_claimable locked now) db.cleanups)
