-- ===== src/Worker/ConsumerExamples.antt =====
-- The theorems on services/worker/app/consumers/knowledge_sync.py at concrete messages.
use serviq.Common.{
  ℕ, ◌≡◌, ◌≤◌, refl, none, some, Bool, true, false, [], ◌∷◌, ◌==◌, ◌+◌, ◌*◌, arith, leb, is_digit,
  decimal, digit_count,
}
use serviq.Worker.Sync.Run.{Outside, fetch_error}
use serviq.Worker.Consumer.{
  Topic, Message, Publication, Around, Consumer, Envelope, retry_publication, parse_retry_metadata,
  handle_message, decode_command, settle, publish_retry, retry_delay_seconds,
}
use serviq.Worker.Consumer.Settles.{Settlement, handle_message-settles}
use serviq.Worker.Consumer.Retries.{
  redelivered, Retries, last, again, Retries-le, parse_retry_metadata-retry_publication,
}

abbrev outside : Outside
outside = record {
  hostname = λ _. none;
  fetch = λ _ _. fetch_error "FETCH" true;
  get_bytes = λ _. none;
  put_ok = false;
  sha256 = λ _. "h";
  decimal = λ _. "1";
  uuid_text = λ _. "id";
  has_control = λ _. false;
  new_id = 9;
  now = 100;
  others = λ n db. db;
}

abbrev envelope : Envelope
envelope = record {
  event_id = 1;
  event_type = "serviq.knowledge.sync.v1";
  schema_version = 1;
  tenant_id = 2;
  aggregate_type = "knowledge_source";
  aggregate_id = "id";
  payload_tenant_id = 2;
  payload_source_id = 3;
  payload_sync_version = 1;
  correlation_id = "c";
}

abbrev is_space : ℕ → Bool
is_space c = c == 32

-- A database that does not answer, and a broker that does.
abbrev around : Around
around = record {
  now_ms = 5000;
  publish_ms = 5001;
  acknowledges = λ _. true;
  parse_envelope = λ _. some envelope;
  uuid_text = λ _. "id";
  utf8 = λ _. 105 ∷ 100 ∷ [];
  is_space = is_space;
  is_upper_or_digit = λ c. leb 65 c;
  outside = outside;
  run_raised = some (record { sources = []; documents = []; events = [] });
  mark_raises = true;
}

abbrev first : Message
first = record {
  topic = Topic.sync;
  partition = 0;
  offset = 17;
  key = some (105 ∷ 100 ∷ []);
  value = some [];
  headers = [];
}

abbrev idle : Consumer
idle = record {
  tables = record { sources = []; documents = []; events = [] };
  published = [];
  committed = [];
  rewound = [];
  paused_until = [];
}

handle_message-settles_example : Settlement around first idle (handle_message around first idle)
handle_message-settles_example = handle_message-settles around first idle

digits_show : (c : ℕ) → is_digit c ≡ true → is_space c ≡ false
digits_show c h = ground (arith, h)

short_clock : digit_count (decimal (5001 + 300 * 1000)) ≤ 4300
unfolding decimal
short_clock = omega arith

parse_retry_metadata-retry_publication_example :
    parse_retry_metadata is_space
      (redelivered (retry_publication around (105 ∷ 100 ∷ []) [] 2 300) 0 4).headers
    ≡ some (2, 305001)
parse_retry_metadata-retry_publication_example =
    parse_retry_metadata-retry_publication is_space digits_show around (105 ∷ 100 ∷ []) [] 2 300 0 4
      (omega arith) (omega arith) (omega arith) short_clock

abbrev retry : Publication
retry = retry_publication around (105 ∷ 100 ∷ []) [] 1 30

one_retry : Retries is_space 1 first
unfolding handle_message decode_command settle publish_retry retry_delay_seconds
one_retry = again 0 0 4 around first idle retry refl refl (last (redelivered retry 0 4))

Retries-le_example : 1 ≤ 3
Retries-le_example = Retries-le is_space digits_show 1 first one_retry
