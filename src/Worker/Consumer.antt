-- ===== src/Worker/Consumer.antt =====
-- services/worker/app/consumers/knowledge_sync.py: one message of the sync topics, from its
-- headers to the commit of its offset. Bytes are lists of numbers. Parameters (`Around`) are the
-- clock, the broker's acknowledgement, the JSON and pydantic parse of an envelope, Python's text
-- functions, what `run_knowledge_sync` meets outside, and whether the database answers.
pub mod Settles
pub mod Retries
use serviq.Common.{
  ℕ, ◌+◌, ◌*◌, String, Option, none, some, Bool, true, false, not, ◌&&◌, ◌||◌, List, [], ◌∷◌, ◌++◌,
  ltb, leb, ◌==◌, str_eq, if◌then◌else◌, length, any, delete_where, filter_where, decimal,
  int_value,
}
use serviq.Worker.Sync.{
  Db, KnowledgeSyncCommand, KnowledgeSyncResult, failure, mark_matching_source_failed,
}
use serviq.Worker.Sync.Run.{Outside, Ran, run_knowledge_sync}

pub data Topic : Type 0 where
  sync retry dlq : Topic

abbrev pub same_topic : Topic → Topic → Bool
same_topic Topic.sync Topic.sync = true
same_topic Topic.retry Topic.retry = true
same_topic Topic.dlq Topic.dlq = true
same_topic _ _ = false

abbrev pub is_retry_topic : Topic → Bool
is_retry_topic t = same_topic t Topic.retry

-- The headers with a text key and bytes; a value that is no bytes is none.
pub record Header : Type 0 where
  pub name : String
  pub value : Option (List ℕ)

-- A consumed message; a key or a value that is no bytes is none.
pub record Message : Type 0 where
  pub topic : Topic
  pub partition : ℕ
  pub offset : ℕ
  pub key : Option (List ℕ)
  pub value : Option (List ℕ)
  pub headers : List Header

-- What `KafkaEventPublisher.publish` is given.
pub record Publication : Type 0 where
  pub topic : Topic
  pub key : List ℕ
  pub value : List ℕ
  pub headers : List (String × List ℕ)

-- `_Envelope` with its `_SyncPayload`.
pub record Envelope : Type 0 where
  pub event_id : ℕ
  pub event_type : String
  pub schema_version : ℕ
  pub tenant_id : ℕ
  pub aggregate_type : String
  pub aggregate_id : String
  pub payload_tenant_id : ℕ
  pub payload_source_id : ℕ
  pub payload_sync_version : ℕ
  pub correlation_id : String

pub record Around : Type 0 where
  pub now_ms : ℕ
  pub publish_ms : ℕ
  pub acknowledges : Publication → Bool
  pub parse_envelope : List ℕ → Option Envelope
  pub uuid_text : ℕ → String
  pub utf8 : String → List ℕ
  pub is_space : ℕ → Bool
  pub is_upper_or_digit : ℕ → Bool
  pub outside : Outside
  -- the tables that a run left which raised SQLAlchemyError
  pub run_raised : Option Db
  pub mark_raises : Bool

-- A partition that is paused until a time.
pub record Pause : Type 0 where
  pub topic : Topic
  pub partition : ℕ
  pub until_ms : ℕ

-- The database, what the broker has acknowledged, and the client: the messages whose offset is
-- committed, the positions it was rewound to, and its paused partitions.
pub record Consumer : Type 0 where
  pub tables : Db
  pub published : List Publication
  pub committed : List Message
  pub rewound : List (Topic × ℕ × ℕ)
  pub paused_until : List Pause

abbrev pub attempt_header : String
attempt_header = "serviq-attempt"

abbrev pub not_before_header : String
not_before_header = "serviq-not-before-ms"

abbrev pub error_header : String
error_header = "serviq-error-code"

abbrev pub max_retries : ℕ
max_retries = 3

abbrev pub internal_redelivery_delay_ms : ℕ
internal_redelivery_delay_ms = 1000

abbrev pub invalid_event_code : String
invalid_event_code = "KNOWLEDGE_SYNC_EVENT_INVALID"

abbrev pub database_error_code : String
database_error_code = "KNOWLEDGE_SYNC_DATABASE_UNAVAILABLE"

-- `_RETRY_DELAYS_SECONDS[attempt - 1]`; none stands for ValueError.
unfoldable pub retry_delay_seconds : ℕ → Option ℕ
retry_delay_seconds attempt =
    if attempt == 1
    then some 30
    else if attempt == 2
    then some 300
    else if attempt == 3
    then some 1800
    else none

-- `_headers_dict(headers).get(name)`: the last header of the name that has bytes.
abbrev later : Option (List ℕ) → Option (List ℕ) → Option (List ℕ)
later none first = first
later (some v) first = some v

unfoldable pub header_value : String → List Header → Option (List ℕ)
header_value name [] = none
header_value name (h ∷ hs) =
    let rest = header_value name hs in later rest (if str_eq h.name name then h.value else none)

abbrev pub positive : Option ℕ → Option ℕ
positive none = none
positive (some n) = if ltb 0 n then some n else none

-- Bytes beyond ASCII raise UnicodeDecodeError.
abbrev pub is_byte_beyond_ascii : ℕ → Bool
is_byte_beyond_ascii c = leb 128 c

unfoldable pub parse_positive_ascii_int : (ℕ → Bool) → Option (List ℕ) → Option ℕ
parse_positive_ascii_int space none = none
parse_positive_ascii_int space (some bytes) =
    if any is_byte_beyond_ascii bytes then none else positive (int_value space bytes)

abbrev pub retry_metadata : Option ℕ → Option ℕ → Option (ℕ × ℕ)
retry_metadata none _ = none
retry_metadata (some attempt) none = none
retry_metadata (some attempt) (some not_before_ms) =
    if ltb max_retries attempt then none else some (attempt, not_before_ms)

unfoldable pub parse_retry_metadata : (ℕ → Bool) → List Header → Option (ℕ × ℕ)
parse_retry_metadata space headers =
    retry_metadata (parse_positive_ascii_int space (header_value attempt_header headers))
      (parse_positive_ascii_int space (header_value not_before_header headers))

abbrev bytes_eq : List ℕ → List ℕ → Bool
bytes_eq [] [] = true
bytes_eq [] (_ ∷ _) = false
bytes_eq (_ ∷ _) [] = false
bytes_eq (x ∷ xs) (y ∷ ys) = x == y && bytes_eq xs ys

abbrev is_valid_envelope : Around → List ℕ → Envelope → Bool
is_valid_envelope a key e =
    str_eq e.event_type "serviq.knowledge.sync.v1"
    && e.schema_version == 1
    && str_eq e.aggregate_type "knowledge_source"
    && str_eq e.aggregate_id (a.uuid_text e.payload_source_id)
    && bytes_eq key (a.utf8 e.aggregate_id)
    && e.tenant_id == e.payload_tenant_id

abbrev command_of : Envelope → KnowledgeSyncCommand
command_of e = record {
  event_id = e.event_id;
  tenant_id = e.payload_tenant_id;
  source_id = e.payload_source_id;
  sync_version = e.payload_sync_version;
  correlation_id = e.correlation_id;
}

abbrev checked_command : Around → List ℕ → Option Envelope → Option KnowledgeSyncCommand
checked_command a key none = none
checked_command a key (some e) = if is_valid_envelope a key e then some (command_of e) else none

unfoldable pub decode_command : Around → List ℕ → List ℕ → Option KnowledgeSyncCommand
decode_command a key value = checked_command a key (a.parse_envelope value)

-- `_is_safe_error_code` on the code points; those of the codes that the worker uses are their bytes.
unfoldable pub is_safe_error_code : (ℕ → Bool) → List ℕ → Bool
is_safe_error_code upper_or_digit code =
    ltb 0 (length code)
    && leb (length code) 100
    && not (any (λ c. not (upper_or_digit c || c == 95)) code)

abbrev pub commit : Message → Consumer → Consumer
commit m s = record s { committed = s.committed ++ m ∷ [] }

abbrev pub is_pause_of : Message → Pause → Bool
is_pause_of m p = same_topic p.topic m.topic && p.partition == m.partition

-- `resume_at_ms` of a message that waits, or the short delay after a failure.
abbrev resume_time : Around → Option ℕ → ℕ
resume_time a none = a.publish_ms + internal_redelivery_delay_ms
resume_time a (some ms) = ms

unfoldable pub rewind_and_pause : Around → Message → Option ℕ → Consumer → Consumer
rewind_and_pause a m resume_at_ms s = record s {
  rewound = s.rewound ++ (m.topic, m.partition, m.offset) ∷ [];
  paused_until =
      delete_where (is_pause_of m) s.paused_until
      ++ record { topic = m.topic; partition = m.partition; until_ms = resume_time a resume_at_ms }
        ∷ [];
}

-- The publication is acknowledged and the message is committed, or BrokerUnavailableError.
abbrev pub hand_over : Around → Message → Publication → Consumer → Consumer
hand_over a m p s =
    if a.acknowledges p
    then commit m (record s { published = s.published ++ p ∷ [] })
    else rewind_and_pause a m none s

abbrev pub retry_publication : Around → List ℕ → List ℕ → ℕ → ℕ → Publication
retry_publication a key value next_attempt delay = record {
  topic = Topic.retry;
  key = key;
  value = value;
  headers =
      (attempt_header, decimal next_attempt)
      ∷ (not_before_header, decimal (a.publish_ms + delay * 1000))
      ∷ [];
}

abbrev pub publish_after : Around → Message → List ℕ → List ℕ → ℕ → Option ℕ → Consumer → Consumer
publish_after a m key value next_attempt none s = s
publish_after a m key value next_attempt (some delay) s =
    hand_over a m (retry_publication a key value next_attempt delay) s

-- The callers pass an attempt from 1 to 3, so `retry_delay_seconds` does not raise.
unfoldable pub publish_retry : Around → Message → List ℕ → List ℕ → ℕ → Consumer → Consumer
publish_retry a m key value next_attempt s =
    publish_after a m key value next_attempt (retry_delay_seconds next_attempt) s

abbrev pub dlq_publication : Around → List ℕ → List ℕ → String → Publication
dlq_publication a key value code = record {
  topic = Topic.dlq;
  key = key;
  value = value;
  headers =
      (
        error_header,
        if is_safe_error_code a.is_upper_or_digit (a.utf8 code)
            then a.utf8 code
            else a.utf8 invalid_event_code,
      )
      ∷ [];
}

unfoldable pub publish_dlq : Around → Message → List ℕ → List ℕ → String → Consumer → Consumer
publish_dlq a m key value code s = hand_over a m (dlq_publication a key value code) s

abbrev pub or_empty : Option (List ℕ) → List ℕ
or_empty none = []
or_empty (some bytes) = bytes

-- `_safe_message_bytes`, published as an invalid event
abbrev pub reject : Around → Message → Consumer → Consumer
reject a m s = publish_dlq a m (or_empty m.key) (or_empty m.value) invalid_event_code s

-- The result of `run_knowledge_sync`, with the handler of SQLAlchemyError.
abbrev pub run_result : Around → KnowledgeSyncCommand → Option Db → Db → KnowledgeSyncResult × Db
run_result a c (some left) db = (failure database_error_code true, left)
run_result a c none db = let ran = run_knowledge_sync a.outside c db in (ran.result, ran.tables)

-- `result.error_code or _INVALID_EVENT_CODE`: a missing or empty code is replaced.
abbrev pub code_or_default : Option String → String
code_or_default none = invalid_event_code
code_or_default (some code) = if str_eq code "" then invalid_event_code else code

-- After a failure that is not retried.
unfoldable pub fail_message :
    Around → Message → List ℕ → List ℕ → ℕ → KnowledgeSyncCommand → String → Consumer → Consumer
fail_message a m key value attempt c code s =
    if a.mark_raises
    then (if ltb attempt max_retries
        then publish_retry a m key value (attempt + 1) s
        else rewind_and_pause a m none s)
    else publish_dlq a m key value code
        (record s { tables = mark_matching_source_failed c code s.tables })

unfoldable pub settle :
    Around
    → Message
    → List ℕ
    → List ℕ
    → ℕ
    → KnowledgeSyncCommand
    → KnowledgeSyncResult
    → Consumer
    → Consumer
settle a m key value attempt c result s =
    if result.completed
    then commit m s
    else if result.retryable && ltb attempt max_retries
    then publish_retry a m key value (attempt + 1) s
    else fail_message a m key value attempt c (code_or_default result.error_code) s

abbrev pub run_command :
    Around → Message → List ℕ → List ℕ → ℕ → KnowledgeSyncCommand → Consumer → Consumer
run_command a m key value attempt c s =
    let (result, tables) = run_result a c a.run_raised s.tables in
    settle a m key value attempt c result (record s { tables = tables })

abbrev pub run_decoded :
    Around → Message → List ℕ → List ℕ → ℕ → Option KnowledgeSyncCommand → Consumer → Consumer
run_decoded a m key value attempt none s = publish_dlq a m key value invalid_event_code s
run_decoded a m key value attempt (some c) s = run_command a m key value attempt c s

abbrev pub with_bytes :
    Around → Message → ℕ → Option (List ℕ) → Option (List ℕ) → Consumer → Consumer
with_bytes a m attempt none _ s = reject a m s
with_bytes a m attempt (some key) none s = reject a m s
with_bytes a m attempt (some key) (some value) s =
    run_decoded a m key value attempt (decode_command a key value) s

abbrev pub on_retry : Around → Message → Option (ℕ × ℕ) → Consumer → Consumer
on_retry a m none s = reject a m s
on_retry a m (some (attempt, not_before_ms)) s =
    if ltb a.now_ms not_before_ms
    then rewind_and_pause a m (some not_before_ms) s
    else with_bytes a m attempt m.key m.value s

-- `_handle_message`
unfoldable pub handle_message : Around → Message → Consumer → Consumer
handle_message a m s =
    if is_retry_topic m.topic
    then on_retry a m (parse_retry_metadata a.is_space m.headers) s
    else with_bytes a m 0 m.key m.value s

abbrev is_due : ℕ → Pause → Bool
is_due now_ms p = leb p.until_ms now_ms

-- The partitions that are resumed, and the consumer after it.
unfoldable pub resume_due_partitions : ℕ → Consumer → List Pause × Consumer
resume_due_partitions now_ms s = (
  filter_where (is_due now_ms) s.paused_until,
  record s { paused_until = delete_where (is_due now_ms) s.paused_until },
)
