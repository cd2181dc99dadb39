-- ===== src/Worker/Outbox/Settles.antt =====
-- What a batch makes of every row that it claims.
use serviq.Common.{
  ℕ, zero, suc, ◌+◌, ◌≤◌, ◌≡◌, ◌≢◌, refl, ◌∙◌, inl, inr, Option, none, some, Bool, true, ◌&&◌, List,
  [], ◌∷◌, false, arith, leb, ◌==◌, if◌then◌else◌, Bool-cases, length, length-take, take,
  count_where, find_where, filter_where, update_where, All,
}
use serviq.Worker.Outbox.{
  OutboxRow, BrokerRecord, EventStatus, Published, publisher_backoff_seconds, serialize_outbox_row,
  is_pending, is_due, is_open, insert, ordered, comes_first, claim_due_events, mark_published,
  mark_retry, mark_failed, publish_record, publish_row, publish_rows, publish_due_batch,
}

abbrev pub has_id : ℕ → OutboxRow → Bool
has_id i r = r.id == i

-- The primary key of the outbox.
abbrev pub IsKeyed : List OutboxRow → Type 0
IsKeyed rows = (i : ℕ) → count_where (has_id i) rows ≤ 1

-- The row that a claimed row becomes.
abbrev pub settle_as : (BrokerRecord → Bool) → ℕ → OutboxRow → Option BrokerRecord → OutboxRow
settle_as accepts now r none = mark_failed r
settle_as accepts now r (some b) =
    if accepts b then mark_published now r else mark_retry now (r.attempts + 1) r

abbrev pub settled : (BrokerRecord → Bool) → ℕ → OutboxRow → OutboxRow
settled accepts now r = settle_as accepts now r (serialize_outbox_row r)

-- A row that is claimed is found under its id, and is pending.
abbrev IsClaimed : List OutboxRow → OutboxRow → Type 0
IsClaimed rows r = (find_where (has_id r.id) rows ≡ some r) × (is_pending r.status ≡ true)

find_updated :
    (i : ℕ) (f : OutboxRow → OutboxRow) (rows : List OutboxRow) (r : OutboxRow)
    → ((x : OutboxRow) → (f x).id ≡ x.id)
    → find_where (has_id i) rows ≡ some r
    → is_pending r.status ≡ true
    → find_where (has_id i) (update_where (is_open i) f rows) ≡ some (f r)
find_updated i f [] r keeps h k = ground arith
find_updated i f (x ∷ xs) r keeps h k = ground (arith, keeps x, find_updated i f xs r keeps)

find_other :
    (i j : ℕ) (f : OutboxRow → OutboxRow) (rows : List OutboxRow)
    → ((x : OutboxRow) → (f x).id ≡ x.id)
    → i ≢ j
    → find_where (has_id j) (update_where (is_open i) f rows) ≡ find_where (has_id j) rows
find_other i j f [] keeps h = refl
find_other i j f (x ∷ xs) keeps h = ground (arith, keeps x, find_other i j f xs keeps h)

-- A turn of the loop settles its own row and leaves every other as it was.
publish_record_own :
    (accepts : BrokerRecord → Bool) (now : ℕ) (r : OutboxRow) (b : Option BrokerRecord)
    (p : Published)
    → IsClaimed p.rows r
    → find_where (has_id r.id) (publish_record accepts now r b p).rows
      ≡ some (settle_as accepts now r b)
publish_record_own accepts now r none p (found, open') =
    find_updated r.id mark_failed p.rows r (λ x. refl) found open'
publish_record_own accepts now r (some b) p (found, open') = elim (Bool-cases (accepts b)) [
  | inl taken ↦ rw taken (find_updated r.id (mark_published now) p.rows r (λ x. refl) found open')
  | inr refused ↦
      rw refused
        (find_updated r.id (mark_retry now (r.attempts + 1)) p.rows r (λ x. refl) found open')
]

publish_record_other :
    (accepts : BrokerRecord → Bool) (now j : ℕ) (r : OutboxRow) (b : Option BrokerRecord)
    (p : Published)
    → r.id ≢ j
    → find_where (has_id j) (publish_record accepts now r b p).rows ≡ find_where (has_id j) p.rows
publish_record_other accepts now j r none p h = find_other r.id j mark_failed p.rows (λ x. refl) h
publish_record_other accepts now j r (some b) p h = elim (Bool-cases (accepts b)) [
  | inl taken ↦ rw taken (find_other r.id j (mark_published now) p.rows (λ x. refl) h)
  | inr refused ↦
      rw refused (find_other r.id j (mark_retry now (r.attempts + 1)) p.rows (λ x. refl) h)
]

publish_rows_other :
    (accepts : BrokerRecord → Bool) (now j : ℕ) (rs : List OutboxRow) (p : Published)
    → count_where (has_id j) rs ≡ 0
    → find_where (has_id j) (publish_rows accepts now rs p).rows ≡ find_where (has_id j) p.rows
unfolding publish_row
publish_rows_other accepts now j [] p h = refl
publish_rows_other accepts now j (r ∷ rs) p h =
    publish_rows_other accepts now j rs _ (ground (arith, h))
    ∙ publish_record_other accepts now j r (serialize_outbox_row r) p (ground (arith, h))

-- Another row stays claimed over a turn.
publish_row-IsClaimed :
    (accepts : BrokerRecord → Bool) (now : ℕ) (r : OutboxRow) (rs : List OutboxRow) (p : Published)
    → count_where (has_id r.id) rs ≡ 0
    → All (IsClaimed p.rows) rs
    → All (IsClaimed (publish_row accepts now r p).rows) rs
unfolding publish_row
publish_row-IsClaimed accepts now r [] p h k = tt
publish_row-IsClaimed accepts now r (x ∷ xs) p h k = (
  (
    publish_record_other accepts now x.id r (serialize_outbox_row r) p (ground (arith, h)) ∙ k.0.0,
    k.0.1,
  ),
  publish_row-IsClaimed accepts now r xs p (ground (arith, h)) k.1,
)

abbrev Settles : (BrokerRecord → Bool) → ℕ → List OutboxRow → OutboxRow → Type 0
Settles accepts now rows r = find_where (has_id r.id) rows ≡ some (settled accepts now r)

publish_rows_settle :
    (accepts : BrokerRecord → Bool) (now : ℕ) (rs : List OutboxRow) (p : Published)
    → IsKeyed rs
    → All (IsClaimed p.rows) rs
    → All (Settles accepts now (publish_rows accepts now rs p).rows) rs
unfolding publish_row
publish_rows_settle accepts now [] p keyed h = tt
publish_rows_settle accepts now (r ∷ rs) p keyed h =
    let alone : count_where (has_id r.id) rs ≡ 0 = ground (arith, keyed r.id) in
    (
      publish_rows_other accepts now r.id rs _ alone
          ∙ publish_record_own accepts now r (serialize_outbox_row r) p h.0,
      publish_rows_settle accepts now rs _ (λ i. ground (arith, keyed i))
          (publish_row-IsClaimed accepts now r rs p alone h.1),
    )

-- The claim keeps ids unique and finds its rows in the table.
count_filter :
    (p q : OutboxRow → Bool) (rows : List OutboxRow)
    → count_where p (filter_where q rows) ≤ count_where p rows
count_filter p q [] = omega arith
count_filter p q (x ∷ xs) = ground (arith, count_filter p q xs)

count_insert :
    (p : OutboxRow → Bool) (r : OutboxRow) (rs : List OutboxRow)
    → count_where p (insert r rs) ≡ count_where p (r ∷ rs)
count_insert p r [] = refl
count_insert p r (s ∷ ss) = elim (Bool-cases (comes_first r s)) [
  | inl first ↦ rw first refl
  | inr later ↦ rw later (omega (arith, count_insert p r ss))
]

count_ordered :
    (p : OutboxRow → Bool) (rs : List OutboxRow) → count_where p (ordered rs) ≡ count_where p rs
count_ordered p [] = refl
count_ordered p (r ∷ rs) = omega (arith, count_insert p r (ordered rs), count_ordered p rs)

count_take :
    (p : OutboxRow → Bool) (n : ℕ) (rs : List OutboxRow)
    → count_where p (take n rs) ≤ count_where p rs
count_take p zero rs = omega arith
count_take p (suc n) [] = omega arith
count_take p (suc n) (r ∷ rs) = omega (arith, count_take p n rs)

module _ (P : OutboxRow → Type 0) where
  All-insert : (r : OutboxRow) (rs : List OutboxRow) → P r → All P rs → All P (insert r rs)
  All-insert r [] h k = (h, tt)
  All-insert r (s ∷ ss) h k = elim (Bool-cases (comes_first r s)) [
    | inl first ↦ rw (first, All) (h, k)
    | inr later ↦ rw (later, All) (k.0, All-insert r ss h k.1)
  ]

  All-ordered : (rs : List OutboxRow) → All P rs → All P (ordered rs)
  All-ordered [] h = tt
  All-ordered (r ∷ rs) h = All-insert r (ordered rs) h.0 (All-ordered rs h.1)

  All-take : (n : ℕ) (rs : List OutboxRow) → All P rs → All P (take n rs)
  All-take zero rs h = tt
  All-take (suc n) [] h = tt
  All-take (suc n) (r ∷ rs) h = (h.0, All-take n rs h.1)

count_found :
    (i : ℕ) (rows : List OutboxRow) (r : OutboxRow)
    → find_where (has_id i) rows ≡ some r
    → 1 ≤ count_where (has_id i) rows
count_found i [] r h = ground arith
count_found i (x ∷ xs) r h = ground (arith, count_found i xs r)

due_found :
    (locked : ℕ → Bool) (now : ℕ) (all rows : List OutboxRow)
    → ((i : ℕ) (r : OutboxRow)
        → find_where (has_id i) rows ≡ some r
        → find_where (has_id i) all ≡ some r)
    → IsKeyed rows
    → All (IsClaimed all) (filter_where (is_due locked now) rows)
due_found locked now all [] inside keyed = tt
due_found locked now all (x ∷ xs) inside keyed =
    let first : find_where (has_id x.id) all ≡ some x = inside x.id x (ground arith) in
    let rest =
      due_found locked now all xs
        (λ i r h. inside i r (ground (arith, h, keyed x.id, count_found i xs r h)))
        (λ i. ground (arith, keyed i)) in
    elim (Bool-cases (is_due locked now x)) [
      | inl due ↦ rw (due, All) ((first, ground (arith, due)), rest)
      | inr not_due ↦ rw (not_due, All) rest
    ]

claim-IsKeyed :
    (locked : ℕ → Bool) (now n : ℕ) (rows : List OutboxRow)
    → IsKeyed rows
    → IsKeyed (claim_due_events locked now n rows)
unfolding claim_due_events
claim-IsKeyed locked now n rows keyed i = omega (
  arith,
  keyed i,
  count_take (has_id i) n (ordered (filter_where (is_due locked now) rows)),
  count_ordered (has_id i) (filter_where (is_due locked now) rows),
  count_filter (has_id i) (is_due locked now) rows,
)

claim_found :
    (locked : ℕ → Bool) (now n : ℕ) (rows : List OutboxRow)
    → IsKeyed rows
    → All (IsClaimed rows) (claim_due_events locked now n rows)
unfolding claim_due_events
claim_found locked now n rows keyed =
    All-take (IsClaimed rows) n _
      (All-ordered (IsClaimed rows) _ (due_found locked now rows rows (λ i r h. h) keyed))

claim_bounded :
    (locked : ℕ → Bool) (now n : ℕ) (rows : List OutboxRow)
    → length (claim_due_events locked now n rows) ≤ n
unfolding claim_due_events
claim_bounded locked now n rows = length-take n (ordered (filter_where (is_due locked now) rows))

-- What became of a claimed row `r`: its columns in the row `r'` of the same id.
pub data Fate (accepts : BrokerRecord → Bool) (now : ℕ) (r r' : OutboxRow) : Type 0 where
  unserializable :
      serialize_outbox_row r ≡ none
      → r'.status ≡ EventStatus.failed
      → r'.attempts ≡ r.attempts + 1
      → Fate accepts now r r'
  sent :
      (b : BrokerRecord)
      → serialize_outbox_row r ≡ some b
      → accepts b ≡ true
      → r'.status ≡ EventStatus.published
      → r'.published_at ≡ some now
      → Fate accepts now r r'
  delayed :
      (b : BrokerRecord)
      → serialize_outbox_row r ≡ some b
      → accepts b ≡ false
      → is_pending r'.status ≡ true
      → r'.attempts ≡ r.attempts + 1
      → r'.next_attempt_at ≡ now + publisher_backoff_seconds (r.attempts + 1)
      → Fate accepts now r r'

-- A claimed row was pending, and is found again with its fate.
abbrev IsFated : (BrokerRecord → Bool) → ℕ → List OutboxRow → OutboxRow → Type 0
IsFated accepts now rows r =
    (is_pending r.status ≡ true)
    × (r' : OutboxRow) × (find_where (has_id r.id) rows ≡ some r')
    × Fate accepts now r r'

settled-Fate :
    (accepts : BrokerRecord → Bool) (now : ℕ) (r : OutboxRow) (o : Option BrokerRecord)
    → serialize_outbox_row r ≡ o
    → is_pending r.status ≡ true
    → Fate accepts now r (settle_as accepts now r o)
settled-Fate accepts now r none e pending = unserializable e refl refl
settled-Fate accepts now r (some b) e pending = elim (Bool-cases (accepts b)) [
  | inl taken ↦ rw taken (sent b e taken refl refl)
  | inr refused ↦ rw refused (delayed b e refused pending refl refl)
]

All-IsFated :
    (accepts : BrokerRecord → Bool) (now : ℕ) (all rows rs : List OutboxRow)
    → All (IsClaimed all) rs
    → All (Settles accepts now rows) rs
    → All (IsFated accepts now rows) rs
All-IsFated accepts now all rows [] p q = tt
All-IsFated accepts now all rows (r ∷ rs) p q = (
  (
    p.0.1,
    settled accepts now r,
    q.0,
    settled-Fate accepts now r (serialize_outbox_row r) refl p.0.1,
  ),
  All-IsFated accepts now all rows rs p.1 q.1,
)

-- What a batch reports and leaves: at most `batch_size` rows were claimed, each of them has its fate,
-- and every id that was not claimed still has its row.
pub record IsBatch (accepts : BrokerRecord → Bool) (now batch_size : ℕ)
    (claimed rows : List OutboxRow) (processed : ℕ) (p : Published) : Type 0 where
  pub counted : processed ≡ length claimed
  pub bounded : processed ≤ batch_size
  pub settles : All (IsFated accepts now p.rows) claimed
  pub others :
      (j : ℕ)
      → count_where (has_id j) claimed ≡ 0
      → find_where (has_id j) p.rows ≡ find_where (has_id j) rows

-- A batch of a size from 1 to 100 over rows with unique ids claims at most that many rows; each of
-- them ends as failed with one more attempt if it does not serialize, as published at this time if
-- the broker took its record, and else as pending with one more attempt and due after the delay for
-- its new number of attempts; the row of every other id stays as it was.
pub publish_due_batch-IsBatch :
    (accepts : BrokerRecord → Bool) (locked : ℕ → Bool) (now batch_size : ℕ) (rows : List OutboxRow)
    → 1 ≤ batch_size
    → batch_size ≤ 100
    → IsKeyed rows
    → (processed : ℕ) × (p : Published) × (publish_due_batch accepts locked now batch_size rows
        ≡ some (processed, p))
      × IsBatch accepts now batch_size
          (claim_due_events locked now batch_size rows)
          rows
          processed
          p
unfolding publish_due_batch
publish_due_batch-IsBatch accepts locked now batch_size rows low high keyed =
    let claimed = claim_due_events locked now batch_size rows in
    let start : Published = record { sent = []; rows = rows } in
    let fits : leb 1 batch_size && leb batch_size 100 ≡ true = ground (arith, low, high) in
    (
      length claimed,
      publish_rows accepts now claimed start,
      rw fits refl,
      record {
        counted = refl;
        bounded = claim_bounded locked now batch_size rows;
        settles =
            let claims = claim_found locked now batch_size rows keyed in
            All-IsFated accepts now rows (publish_rows accepts now claimed start).rows claimed
              claims
              (publish_rows_settle accepts now claimed start
                (claim-IsKeyed locked now batch_size rows keyed) claims);
        others = λ j h. publish_rows_other accepts now j claimed start h;
      },
    )
