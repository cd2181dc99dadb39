-- ===== src/Knowledge/Cleanup/Sweep.antt =====
-- `reconcile_due_upload_cleanups` of services/api/app/modules/knowledge/cleanup.py, with
-- `list_due_upload_cleanup_ids` of repository.py: the sweep over the due obligations.
use serviq.Common.{
  ℕ, suc, ◌+◌, ◌≤◌, String, Option, none, some, Bool, true, false, ◌&&◌, ◌||◌, List, [], ◌∷◌, arith,
  ltb, leb, ◌==◌, length, length-take, take, filter_where, if◌then◌else◌,
}
use serviq.Knowledge.Rows.{Db, KnowledgeUploadCleanup}
use serviq.Knowledge.Tx.{Error, Result, ok, err}
use serviq.Knowledge.Repository.Cleanups.{is_unresolved}
use serviq.Knowledge.Cleanup.{Claimed, claim, done, ReplayResult}
use serviq.Knowledge.Cleanup.Replay.{Surroundings, Replay, is_not_due, reconcile_upload_cleanup}
use serviq.Knowledge.Cleanup.Constraints.{CleanupsConsistent}
use serviq.Knowledge.Cleanup.Rules.{reconcile-Consistent}

abbrev pub due_time : KnowledgeUploadCleanup → ℕ
due_time c = elim c.next_attempt_at [ none ↦ 0 | some a ↦ a ]

-- `ORDER BY next_attempt_at, id`; the rows that are listed all have a time.
abbrev pub is_before : KnowledgeUploadCleanup → KnowledgeUploadCleanup → Bool
is_before c d = ltb (due_time c) (due_time d) || (due_time c == due_time d && leb c.id d.id)

abbrev pub insert_due :
    KnowledgeUploadCleanup → List KnowledgeUploadCleanup → List KnowledgeUploadCleanup
insert_due c [] = c ∷ []
insert_due c (d ∷ ds) = let rest = insert_due c ds in if is_before c d then c ∷ d ∷ ds else d ∷ rest

abbrev pub in_due_order : List KnowledgeUploadCleanup → List KnowledgeUploadCleanup
in_due_order [] = []
in_due_order (c ∷ cs) = insert_due c (in_due_order cs)

abbrev pub is_listed : ℕ → KnowledgeUploadCleanup → Bool
is_listed now c =
    is_unresolved c.status && (if is_not_due c.next_attempt_at now then false else true)

-- The rows whose two ids `list_due_upload_cleanup_ids` returns.
unfoldable pub list_due_upload_cleanups : ℕ → ℕ → Db → List KnowledgeUploadCleanup
list_due_upload_cleanups now limit db =
    take limit (in_due_order (filter_where (is_listed now) db.cleanups))

-- What a sweep leaves: the results so far, the exception that stopped it, the tables, and how
-- often the object store was asked to delete.
pub record Swept : Type 0 where
  pub results : List ReplayResult
  pub stopped_by : Option Error
  pub tables : Db
  pub deletes : ℕ

abbrev pub count_delete : Bool → ℕ
count_delete true = 1
count_delete false = 0

abbrev pub and_then : Replay → (Db → Swept) → Swept
and_then r rest =
    let later = rest r.tables in
    elim r.result [
      | err e ↦ record {
        results = [];
        stopped_by = some e;
        tables = r.tables;
        deletes = count_delete r.delete_called;
      }
      | ok (done x) ↦ record later {
        results = x ∷ later.results;
        deletes = count_delete r.delete_called + later.deletes;
      }
      | ok (claim x) ↦ record later { deletes = count_delete r.delete_called + later.deletes }
    ]

-- The loop, where `around n` is what the n-th replay meets and `between n` what other sessions
-- commit before it.
unfoldable pub sweep :
    (ℕ → String)
    → ℕ
    → (ℕ → Surroundings)
    → (ℕ → Db → Db)
    → ℕ
    → List KnowledgeUploadCleanup
    → Db
    → Swept
sweep uuid_text now around between n [] db = record {
  results = [];
  stopped_by = none;
  tables = db;
  deletes = 0;
}
sweep uuid_text now around between n (c ∷ cs) db =
    and_then (reconcile_upload_cleanup uuid_text c.tenant_id c.id now (around n) (between n db))
      (sweep uuid_text now around between (suc n) cs)

unfoldable pub reconcile_due_upload_cleanups :
    (ℕ → String) → ℕ → ℕ → (ℕ → Surroundings) → (ℕ → Db → Db) → Db → Swept
reconcile_due_upload_cleanups uuid_text now limit around between db =
    sweep uuid_text now around between 0 (list_due_upload_cleanups now limit db) db

-- What is kept by a sweep of at most `n` rows.
pub record IsSwept (n : ℕ) (s : Swept) : Type 0 where
  pub consistent : CleanupsConsistent s.tables
  pub few_results : length s.results ≤ n
  pub few_deletes : s.deletes ≤ n

and_then-IsSwept :
    (n : ℕ) (r : Result Claimed) (db : Db) (called : Bool) (rest : Db → Swept)
    → CleanupsConsistent db
    → IsSwept n (rest db)
    → IsSwept (suc n) (and_then (record { result = r; tables = db; delete_called = called }) rest)
and_then-IsSwept n (err e) db called rest h k = record {
  consistent = h;
  few_results = omega arith;
  few_deletes = ground arith;
}
and_then-IsSwept n (ok (done x)) db called rest h k = record {
  consistent = k.consistent;
  few_results = omega (arith, k.few_results);
  few_deletes = ground (arith, k.few_deletes);
}
and_then-IsSwept n (ok (claim x)) db called rest h k = record {
  consistent = k.consistent;
  few_results = omega (arith, k.few_results);
  few_deletes = ground (arith, k.few_deletes);
}

module _ (uuid_text : ℕ → String) (now : ℕ) (around : ℕ → Surroundings) (between : ℕ → Db → Db)
    (inside : (n : ℕ) (d : Db) → CleanupsConsistent d → CleanupsConsistent ((around n).others d))
    (outside : (n : ℕ) (d : Db) → CleanupsConsistent d → CleanupsConsistent (between n d)) where
  sweep-IsSwept :
      (n : ℕ) (cs : List KnowledgeUploadCleanup) (db : Db)
      → CleanupsConsistent db
      → IsSwept (length cs) (sweep uuid_text now around between n cs db)
  unfolding sweep
  sweep-IsSwept n [] db h = record {
    consistent = h;
    few_results = omega arith;
    few_deletes = omega arith;
  }
  sweep-IsSwept n (c ∷ cs) db h =
      let r = reconcile_upload_cleanup uuid_text c.tenant_id c.id now (around n) (between n db) in
      let kept =
        reconcile-Consistent uuid_text c.tenant_id c.id now (around n) (between n db) (inside n)
          (outside n db h) in
      and_then-IsSwept (length cs) r.result r.tables r.delete_called
        (sweep uuid_text now around between (suc n) cs) kept
        (sweep-IsSwept (suc n) cs r.tables kept)

  -- A sweep asks the object store for at most `limit` deletes and keeps the constraints of the
  -- cleanup table, also where an exception stops it, as long as what other sessions commit before
  -- and during its replays keeps them.
  pub reconcile_due-IsSwept :
      (limit : ℕ) (db : Db)
      → CleanupsConsistent db
      → let s = reconcile_due_upload_cleanups uuid_text now limit around between db in
        CleanupsConsistent s.tables × (length s.results ≤ limit) × (s.deletes ≤ limit)
  unfolding reconcile_due_upload_cleanups list_due_upload_cleanups
  reconcile_due-IsSwept limit db h =
      let rows = in_due_order (filter_where (is_listed now) db.cleanups) in
      let s = sweep-IsSwept 0 (take limit rows) db h in
      let short = length-take limit rows in
      (s.consistent, omega (arith, s.few_results, short), omega (arith, s.few_deletes, short))
