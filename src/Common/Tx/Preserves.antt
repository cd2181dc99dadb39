-- ===== src/Common/Tx/Preserves.antt =====
-- Invariants of the tables under transaction bodies: a rule for each way to build a body.
use mathlib.Core.Path.{◌≡◌, refl}
use mathlib.Core.Logic.{inl, inr}
use mathlib.Core.Bool.{Bool, true, false}
use native.Mathlib.Omega.{arith}
use serviq.Common.Tests.{if◌then◌else◌}
use serviq.Common.Tx.{
  Tx, Result, ok, ◌>>=◌, pure, gets, modify, ◌>>◌, raise, raise_if, transaction, on_error,
  on_error_inv, bind_inv, transaction_cases,
}

-- Wherever the body succeeds, it leads from tables with `P` to tables with `P`.
pub record Preserves {S E A : Type 0} (P : S → Type 0) (m : Tx S E A) : Type 0 where
  pub run : (db : S) (a : A) (db' : S) → P db → m db ≡ ok (a, db') → P db'

module _ {S E A : Type 0} {P : S → Type 0} where
  pub Preserves-pure : (a : A) → Preserves {E = E} P (pure a)
  Preserves-pure a = record { run = λ db x db' p e. rw (value_eq db db' x a e) at p }
    where
      value_eq :
          (db db' : S) (x a : A) → ◌≡◌ {A = Result E (A × S)} (ok (a, db)) (ok (x, db')) → db ≡ db'
      value_eq db db' x a e = cc

  pub Preserves-read : (g : S → A) → Preserves {E = E} P (gets g)
  Preserves-read g = record { run = λ db x db' p e. rw (same db db' x e) at p }
    where
      same :
          (db db' : S) (x : A) → ◌≡◌ {A = Result E (A × S)} (ok (g db, db)) (ok (x, db')) → db ≡ db'
      same db db' x e = cc

  pub Preserves-raise : (e : E) → Preserves P (raise {S = S} {A = A} e)
  Preserves-raise e = record { run = λ db x db' p h. absurd (cc) }

  pub Preserves-if :
      (b : Bool) (m n : Tx S E A)
      → (b ≡ true → Preserves P m)
      → (b ≡ false → Preserves P n)
      → Preserves P (if b then m else n)
  Preserves-if true m n pm pn = pm refl
  Preserves-if false m n pm pn = pn refl

  pub Preserves-on_error :
      (m : Tx S E A) (h : E → Tx S E A)
      → Preserves P m
      → ((e : E) → Preserves P (h e))
      → Preserves P (on_error m h)
  Preserves-on_error m h pm ph = record {
    run = λ db a db' p e. elim (on_error_inv m h db (a, db') e) [
      | inl ran ↦ pm.run db a db' p ran
      | inr (x, failed, handled) ↦ (ph x).run db a db' p handled
    ];
  }

  -- A committed transaction keeps the invariant, and so does one that was rolled back.
  pub Preserves-transaction :
      (m : Tx S E A) → Preserves P m → (db : S) → P db → P (transaction m db).1
  Preserves-transaction m pm db p = elim (transaction_cases m db) [
    | inl (e, failed, undone) ↦ rw undone p
    | inr (a, db', ran, committed) ↦ rw committed (pm.run db a db' p ran)
  ]

module _ {S E : Type 0} {P : S → Type 0} where
  pub Preserves-modify : (f : S → S) → ((db : S) → P db → P (f db)) → Preserves {E = E} P (modify f)
  Preserves-modify f step = record { run = λ db x db' p e. rw (end_eq db db' x e) at (step db p) }
    where
      end_eq :
          (db db' : S) (x : Unit {0})
          → ◌≡◌ {A = Result E (Unit {0} × S)} (ok (tt, f db)) (ok (x, db'))
          → f db ≡ db'
      end_eq db db' x e = cc

  pub Preserves-raise_if : (b : Bool) (e : E) → Preserves P (raise_if b e)
  Preserves-raise_if b e = record { run = λ db x db' p h. rw (same db db' x h) at p }
    where
      same : (db db' : S) (x : Unit {0}) → raise_if b e db ≡ ok (x, db') → db ≡ db'
      same db db' x h = ground arith

module _ {S E A B : Type 0} {P : S → Type 0} where
  pub Preserves-bind :
      (m : Tx S E A) (f : A → Tx S E B)
      → Preserves P m
      → ((a : A) → Preserves P (f a))
      → Preserves P (m >>= f)
  Preserves-bind m f pm pf = record {
    run = λ db b db' p e.
        let (a, db1, ran, rest) = bind_inv m f db (b, db') e in
        (pf a).run db1 b db' (pm.run db a db1 p ran) rest;
  }

  -- What follows a read may use that the value was read from tables with `P`.
  pub Preserves-gets :
      (g : S → A) (f : A → Tx S E B)
      → ((db : S) → P db → Preserves P (f (g db)))
      → Preserves P (gets g >>= f)
  Preserves-gets g f pf = record { run = λ db b db' p e. (pf db p).run db b db' p e }

module _ {S E B : Type 0} {P : S → Type 0} where
  -- A checked insert: refused with `e`, or written by `f`.
  pub Preserves-checked :
      (refuses : S → Bool) (e : E) (f : S → S) (k : Tx S E B)
      → ((db : S) → P db → P (f db))
      → Preserves P k
      → Preserves P (gets refuses >>= λ b. raise_if b e >> (modify f >> k))
  Preserves-checked refuses e f k step pk =
      Preserves-bind (gets refuses) _ (Preserves-read refuses) (λ b.
        Preserves-bind _ _ (Preserves-raise_if b e)
          (λ _. Preserves-bind _ _ (Preserves-modify f step) (λ _. pk)))

pub ruleset preserves_rules = (
  Preserves-pure, Preserves-read, Preserves-raise, Preserves-if, Preserves-raise_if, Preserves-bind,
  Preserves-on_error,
)
