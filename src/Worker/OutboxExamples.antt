-- ===== src/Worker/OutboxExamples.antt =====
-- Three rows of the outbox, of which one serializes badly and one is refused by the broker.
use serviq.Common.{
  ℕ, ◌≤◌, ◌≡◌, refl, String, Option, none, some, Bool, false, List, [], ◌∷◌, arith, str_eq,
}
use serviq.Worker.Outbox.{
  OutboxRow, BrokerRecord, EventStatus, Published, serialize_outbox_row, claim_due_events,
  publish_due_batch, publish_row, publisher_backoff_seconds,
}
use serviq.Worker.Outbox.Settles.{IsKeyed, IsBatch, publish_due_batch-IsBatch}
use serviq.Worker.Outbox.Backoff.{publisher_backoff-bounds}

abbrev event : ℕ → String → ℕ → OutboxRow
event i key due = record {
  id = i;
  tenant_id = some 1;
  event_type = "knowledge.sync";
  schema_version = 1;
  aggregate_type = "source";
  aggregate_id = key;
  payload = some "{}";
  correlation_id = "c-1";
  causation_id = none;
  status = EventStatus.pending;
  attempts = 0;
  next_attempt_at = due;
  published_at = none;
}

abbrev outbox : List OutboxRow
outbox = event 1 "a" 30 ∷ event 2 "" 10 ∷ event 3 "b" 20 ∷ []

abbrev broker : BrokerRecord → Bool
broker b = str_eq b.key "a"

outbox-IsKeyed : IsKeyed outbox
outbox-IsKeyed i = ground arith

-- The statuses and attempts after a batch at time 40.
abbrev outcome : Option (ℕ × Published) → List (EventStatus × ℕ × ℕ)
outcome none = []
outcome (some (n, p)) = fates p.rows
  where
    fates : List OutboxRow → List (EventStatus × ℕ × ℕ)
    fates [] = []
    fates (r ∷ rs) = (r.status, r.attempts, r.next_attempt_at) ∷ fates rs

batch_run :
    outcome (publish_due_batch broker (λ _. false) 40 20 outbox)
    ≡ (EventStatus.published, 0, 30)
      ∷ (EventStatus.failed, 1, 10)
      ∷ (EventStatus.pending, 1, 45)
      ∷ []
unfolding publish_due_batch claim_due_events publish_row serialize_outbox_row
    publisher_backoff_seconds
batch_run = refl

publish_due_batch-IsBatch_example :
    (processed : ℕ) × (p : Published) × (publish_due_batch broker (λ _. false) 40 20 outbox
      ≡ some (processed, p))
    × IsBatch broker 40 20 (claim_due_events (λ _. false) 40 20 outbox) outbox processed p
publish_due_batch-IsBatch_example =
    publish_due_batch-IsBatch broker (λ _. false) 40 20 outbox (omega arith) (omega arith)
      outbox-IsKeyed

publisher_backoff-bounds_example :
    (5 ≤ publisher_backoff_seconds 2)
    × (publisher_backoff_seconds 2 ≤ publisher_backoff_seconds 5)
    × (publisher_backoff_seconds 5 ≤ 300)
publisher_backoff-bounds_example = publisher_backoff-bounds 2 5 (omega arith) (omega arith)
