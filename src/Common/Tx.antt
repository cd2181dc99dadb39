-- ===== src/Common/Tx.antt =====
-- A database transaction (`async with session.begin()`) over tables of type S: state, and
-- exceptions of type E that roll the state back.
pub mod Preserves
use mathlib.Core.Path.{◌≡◌, refl}
use mathlib.Core.Logic.{◌⊎◌, inl, inr}
use mathlib.Core.Bool.{Bool, true, false}
use native.Mathlib.Omega.{arith}
use serviq.Common.Tests.{if◌then◌else◌}

pub data Result (E A : Type 0) : Type 0 where
  ok : A → Result E A
  err : E → Result E A

-- The body of a transaction: its value and the state to commit, or an exception.
abbrev pub Tx : Type 0 → Type 0 → Type 0 → Type 0
Tx S E A = S → Result E (A × S)

infixl 5 ◌>>=◌ ◌>>◌
abbrev pub ◌>>=◌ : {S E A B : Type 0} → Tx S E A → (A → Tx S E B) → Tx S E B
◌>>=◌ m f db = elim (m db) [ ok (a, db') ↦ f a db' | err e ↦ err e ]

abbrev pub ◌>>◌ : {S E A B : Type 0} → Tx S E A → Tx S E B → Tx S E B
m >> k = m >>= λ _. k

abbrev pub pure : {S E A : Type 0} → A → Tx S E A
pure a db = ok (a, db)

abbrev pub gets : {S E A : Type 0} → (S → A) → Tx S E A
gets f db = ok (f db, db)

abbrev pub modify : {S E : Type 0} → (S → S) → Tx S E (Unit {0})
modify f db = ok (tt, f db)

abbrev pub raise : {S E A : Type 0} → E → Tx S E A
raise e db = err e

abbrev pub raise_if : {S E : Type 0} → Bool → E → Tx S E (Unit {0})
raise_if b e db = if b then err e else ok (tt, db)

-- `try: m except E as e: h(e)`; what `m` changed before it failed is undone, as by a savepoint.
abbrev pub on_error : {S E A : Type 0} → Tx S E A → (E → Tx S E A) → Tx S E A
on_error m h db = elim (m db) [ ok r ↦ ok r | err e ↦ h e db ]

-- `async with session.begin()`: commit the state, or roll back and pass the exception on.
abbrev pub transaction : {S E A : Type 0} → Tx S E A → S → Result E A × S
transaction m db = elim (m db) [ ok (a, db') ↦ (ok a, db') | err e ↦ (err e, db) ]

-- A transaction that went past a check did not meet it.
pub raise_if_inv :
    {S E B : Type 0} (b : Bool) (e : E) (k : Tx S E B) (db : S) (r : B × S)
    → (raise_if b e >> k) db ≡ ok r
    → (b ≡ false) × (k db ≡ ok r)
raise_if_inv true e k db r h = cc
raise_if_inv false e k db r h = (refl, h)

-- A transaction that committed had its first part succeed.
pub bind_inv :
    {S E A B : Type 0} (m : Tx S E A) (f : A → Tx S E B) (db : S) (r : B × S)
    → (m >>= f) db ≡ ok r
    → (a : A) × (db' : S) × (m db ≡ ok (a, db')) × (f a db' ≡ ok r)
bind_inv {S} {E} {A} {B} m f db r h = go (m db) refl h
  where
    go :
        (x : Result E (A × S))
        → m db ≡ x
        → (m >>= f) db ≡ ok r
        → (a : A) × (db' : S) × (m db ≡ ok (a, db')) × (f a db' ≡ ok r)
    go (ok (a, db')) e h = (a, db', e, ground (arith, e))
    go (err x) e h = ground (arith, e)

-- A transaction fails and leaves the state as it was, or its body succeeded and is committed.
pub transaction_cases :
    {S E A : Type 0} (m : Tx S E A) (db : S)
    → ((e : E) × (m db ≡ err e) × (transaction m db ≡ (err e, db)))
      ⊎ ((a : A) × (db' : S) × (m db ≡ ok (a, db')) × (transaction m db ≡ (ok a, db')))
transaction_cases {S} {E} {A} m db = go (m db) refl
  where
    go :
        (x : Result E (A × S))
        → m db ≡ x
        → ((e : E) × (m db ≡ err e) × (transaction m db ≡ (err e, db)))
          ⊎ ((a : A) × (db' : S) × (m db ≡ ok (a, db')) × (transaction m db ≡ (ok a, db')))
    go (ok (a, db')) e = inr (a, db', e, rw (e, transaction))
    go (err x) e = inl (x, e, rw (e, transaction))

-- A guarded transaction that committed either ran through or was handled.
pub on_error_inv :
    {S E A : Type 0} (m : Tx S E A) (h : E → Tx S E A) (db : S) (r : A × S)
    → on_error m h db ≡ ok r
    → (m db ≡ ok r) ⊎ ((e : E) × (m db ≡ err e) × (h e db ≡ ok r))
on_error_inv {S} {E} {A} m h db r k = go (m db) refl
  where
    go :
        (x : Result E (A × S))
        → m db ≡ x
        → (m db ≡ ok r) ⊎ ((e : E) × (m db ≡ err e) × (h e db ≡ ok r))
    go (ok y) e = inl (ground (arith, e))
    go (err x) e = inr (x, e, ground (arith, e))

pub raise_if_pass :
    {S E B : Type 0} (b : Bool) (e : E) (k : Tx S E B) (db : S)
    → b ≡ false
    → (raise_if b e >> k) db ≡ k db
raise_if_pass b e k db h = rw (h, raise_if)

pub bind_lem :
    {S E A B : Type 0} (m : Tx S E A) (f : A → Tx S E B) (db : S) (a : A) (db' : S)
    → m db ≡ ok (a, db')
    → (m >>= f) db ≡ f a db'
bind_lem m f db a db' h = rw (h, ◌>>=◌)

-- Where an exception came from.
pub raise_if_err :
    {S E B : Type 0} (b : Bool) (e : E) (k : Tx S E B) (db : S) (x : E)
    → (raise_if b e >> k) db ≡ err x
    → ((b ≡ true) × (e ≡ x)) ⊎ ((b ≡ false) × (k db ≡ err x))
raise_if_err true e k db x h = inl (refl, cc)
raise_if_err false e k db x h = inr (refl, h)

pub bind_err :
    {S E A B : Type 0} (m : Tx S E A) (f : A → Tx S E B) (db : S) (x : E)
    → (m >>= f) db ≡ err x
    → (m db ≡ err x) ⊎ ((a : A) × (db' : S) × (m db ≡ ok (a, db')) × (f a db' ≡ err x))
bind_err {S} {E} {A} {B} m f db x h = go (m db) refl
  where
    go :
        (y : Result E (A × S))
        → m db ≡ y
        → (m db ≡ err x) ⊎ ((a : A) × (db' : S) × (m db ≡ ok (a, db')) × (f a db' ≡ err x))
    go (ok (a, db')) e = inr (a, db', e, ground (arith, e))
    go (err y) e = inl (ground (arith, e))

-- Which branch of a test a transaction took.
pub if_inv :
    {S E A : Type 0} (b : Bool) (m n : Tx S E A) (db : S) (r : Result E (A × S))
    → (if b then m else n) db ≡ r
    → ((b ≡ true) × (m db ≡ r)) ⊎ ((b ≡ false) × (n db ≡ r))
if_inv true m n db r h = inl (refl, h)
if_inv false m n db r h = inr (refl, h)

pub modify_inv :
    {S E : Type 0} (f : S → S) (db db' : S) (a : Unit {0})
    → modify {E = E} f db ≡ ok (a, db')
    → f db ≡ db'
modify_inv f db db' a h = cc

-- A checked statement that committed passed its check and wrote.
pub checked_inv :
    {S E : Type 0} (refuses : S → Bool) (e : E) (f : S → S) (db db' : S) (a : Unit {0})
    → (gets refuses >>= λ b. raise_if b e >> modify f) db ≡ ok (a, db')
    → (refuses db ≡ false) × (f db ≡ db')
checked_inv refuses e f db db' a h =
    let (passed, rest) = raise_if_inv (refuses db) e (modify f) db (a, db') h in
    (passed, modify_inv f db db' a rest)

-- What a transaction leaves depends only on what its body does from this state.
pub transaction_same :
    {S E A : Type 0} (m n : Tx S E A) (db : S) → m db ≡ n db → transaction m db ≡ transaction n db
transaction_same m n db h = rw (h, transaction) refl
