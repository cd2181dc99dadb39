-- ===== src/Worker/Outbox.antt =====
-- services/worker/app/jobs/outbox_publisher.py: one batch of the transactional outbox. The broker's
-- answer to a record, and which rows other publishers have locked, are parameters. Rows are typed,
-- and the JSON text of an envelope stands for itself as a record of its fields. Times are in
-- seconds.
pub mod Settles
pub mod Backoff
use serviq.Common.{
  ℕ, zero, suc, ◌+◌, ◌-◌, ◌*◌, ◌^◌, min, String, Option, none, some, Bool, true, false, not, ◌&&◌,
  ◌||◌, List, [], ◌∷◌, ◌++◌, ltb, leb, ◌==◌, str_eq, if◌then◌else◌, length, take, filter_where,
  update_where,
}

abbrev pub max_batch_size : ℕ
max_batch_size = 100

abbrev pub base_retry_seconds : ℕ
base_retry_seconds = 5

abbrev pub max_retry_seconds : ℕ
max_retry_seconds = 300

pub data EventStatus : Type 0 where
  pending published failed : EventStatus

-- The columns of `outbox_events` that the publisher reads or writes. `payload` is none where the
-- column holds no JSON object.
pub record OutboxRow : Type 0 where
  pub id : ℕ
  pub tenant_id : Option ℕ
  pub event_type : String
  pub schema_version : ℕ
  pub aggregate_type : String
  pub aggregate_id : String
  pub payload : Option String
  pub correlation_id : String
  pub causation_id : Option String
  pub status : EventStatus
  pub attempts : ℕ
  pub next_attempt_at : ℕ
  pub published_at : Option ℕ

pub record Envelope : Type 0 where
  pub id : ℕ
  pub tenant_id : Option ℕ
  pub event_type : String
  pub schema_version : ℕ
  pub aggregate_type : String
  pub aggregate_id : String
  pub payload : String
  pub correlation_id : String
  pub causation_id : Option String

pub record BrokerRecord : Type 0 where
  pub topic : String
  pub key : String
  pub value : Envelope

-- `publisher_backoff_seconds`, for a positive number of attempts.
unfoldable pub publisher_backoff_seconds : ℕ → ℕ
publisher_backoff_seconds attempts =
    if leb 7 attempts
    then max_retry_seconds
    else min (base_retry_seconds * 2 ^ (attempts - 1)) max_retry_seconds

-- `_required_text` and `_optional_text`
abbrev pub is_text : String → Bool
is_text s = not (str_eq s "")

abbrev pub is_optional_text : Option String → Bool
is_optional_text none = true
is_optional_text (some s) = is_text s

abbrev enveloped : OutboxRow → Option String → Option BrokerRecord
enveloped r none = none
enveloped r (some payload) = some (record {
  topic = r.event_type;
  key = r.aggregate_id;
  value = record {
    id = r.id;
    tenant_id = r.tenant_id;
    event_type = r.event_type;
    schema_version = r.schema_version;
    aggregate_type = r.aggregate_type;
    aggregate_id = r.aggregate_id;
    payload = payload;
    correlation_id = r.correlation_id;
    causation_id = r.causation_id;
  };
})

-- `serialize_outbox_row`; none is an OutboxSerializationError.
unfoldable pub serialize_outbox_row : OutboxRow → Option BrokerRecord
serialize_outbox_row r =
    if is_text r.event_type
      && leb 1 r.schema_version
      && is_text r.aggregate_type
      && is_text r.aggregate_id
      && is_text r.correlation_id
      && is_optional_text r.causation_id
    then enveloped r r.payload
    else none

abbrev pub is_pending : EventStatus → Bool
is_pending EventStatus.pending = true
is_pending _ = false

-- `_CLAIM_DUE_EVENTS`: pending, due and not locked by another publisher, the oldest first.
abbrev pub is_due : (ℕ → Bool) → ℕ → OutboxRow → Bool
is_due locked now r = is_pending r.status && leb r.next_attempt_at now && not (locked r.id)

abbrev pub comes_first : OutboxRow → OutboxRow → Bool
comes_first r s =
    ltb r.next_attempt_at s.next_attempt_at
    || (r.next_attempt_at == s.next_attempt_at && leb r.id s.id)

abbrev pub insert : OutboxRow → List OutboxRow → List OutboxRow
insert r [] = r ∷ []
insert r (s ∷ ss) = let rest = insert r ss in if comes_first r s then r ∷ s ∷ ss else s ∷ rest

abbrev pub ordered : List OutboxRow → List OutboxRow
ordered [] = []
ordered (r ∷ rs) = insert r (ordered rs)

unfoldable pub claim_due_events : (ℕ → Bool) → ℕ → ℕ → List OutboxRow → List OutboxRow
claim_due_events locked now n rows = take n (ordered (filter_where (is_due locked now) rows))

-- `WHERE id = :event_id AND status = 'pending'`
abbrev pub is_open : ℕ → OutboxRow → Bool
is_open i r = r.id == i && is_pending r.status

-- `_MARK_PUBLISHED`
abbrev pub mark_published : ℕ → OutboxRow → OutboxRow
mark_published now r = record r { status = EventStatus.published; published_at = some now }

-- `_MARK_RETRY`
abbrev pub mark_retry : ℕ → ℕ → OutboxRow → OutboxRow
mark_retry now attempts r = record r {
  attempts = attempts;
  next_attempt_at = now + publisher_backoff_seconds attempts;
}

-- `_MARK_FAILED`
abbrev pub mark_failed : OutboxRow → OutboxRow
mark_failed r = record r { status = EventStatus.failed; attempts = r.attempts + 1 }

-- What the broker has taken, and the rows.
pub record Published : Type 0 where
  pub sent : List BrokerRecord
  pub rows : List OutboxRow

-- The body of the loop of `publish_due_batch`.
abbrev pub publish_record :
    (BrokerRecord → Bool) → ℕ → OutboxRow → Option BrokerRecord → Published → Published
publish_record accepts now r none p = record p {
  rows = update_where (is_open r.id) mark_failed p.rows;
}
publish_record accepts now r (some b) p =
    if accepts b
    then record {
      sent = p.sent ++ b ∷ [];
      rows = update_where (is_open r.id) (mark_published now) p.rows;
    }
    else record p { rows = update_where (is_open r.id) (mark_retry now (r.attempts + 1)) p.rows }

unfoldable pub publish_row : (BrokerRecord → Bool) → ℕ → OutboxRow → Published → Published
publish_row accepts now r p = publish_record accepts now r (serialize_outbox_row r) p

abbrev pub publish_rows : (BrokerRecord → Bool) → ℕ → List OutboxRow → Published → Published
publish_rows accepts now [] p = p
publish_rows accepts now (r ∷ rs) p = publish_rows accepts now rs (publish_row accepts now r p)

-- `publish_due_batch`: the number of rows and what became of them; none is the ValueError.
unfoldable pub publish_due_batch :
    (BrokerRecord → Bool) → (ℕ → Bool) → ℕ → ℕ → List OutboxRow → Option (ℕ × Published)
publish_due_batch accepts locked now batch_size rows =
    let claimed = claim_due_events locked now batch_size rows in
    if leb 1 batch_size && leb batch_size max_batch_size
    then some (length claimed, publish_rows accepts now claimed (record { sent = []; rows = rows }))
    else none
