-- ===== src/Worker/Consumer/Settles.antt =====
-- What `_handle_message` of services/worker/app/consumers/knowledge_sync.py leaves of a message.
use serviq.Common.{
  ℕ, ◌+◌, ◌<◌, ◌≡◌, refl, ap, if_holds, subst, inl, inr, Option, none, some, Bool, true, false,
  ◌&&◌, List, [], ◌∷◌, ◌++◌, arith, ltb, ltb→lt, any, any_last, delete_where, Bool-cases,
  if◌then◌else◌, ◌==◌, ==_refl,
}
use serviq.Worker.Sync.{Db, KnowledgeSyncCommand, KnowledgeSyncResult, mark_matching_source_failed}
use serviq.Worker.Consumer.{
  Topic, Message, Publication, Around, Consumer, Pause, is_pause_of, same_topic, is_retry_topic,
  parse_retry_metadata, decode_command, retry_delay_seconds, rewind_and_pause, retry_publication,
  dlq_publication, publish_retry, publish_dlq, or_empty, run_result, resume_time, code_or_default,
  fail_message, settle, run_command, run_decoded, with_bytes, on_retry, handle_message,
  invalid_event_code,
}

-- The attempt that a message carries: none in a message from the retry topic without metadata.
abbrev pub first_of : Option (ℕ × ℕ) → Option ℕ
first_of none = none
first_of (some (attempt, _)) = some attempt

abbrev pub attempt_of : (ℕ → Bool) → Message → Option ℕ
attempt_of space m =
    if is_retry_topic m.topic then first_of (parse_retry_metadata space m.headers) else some 0

-- The four ways in which one call may end.
pub data Settlement (a : Around) (m : Message) (s s' : Consumer) : Type 0 where
  completed :
      (key value : List ℕ) (c : KnowledgeSyncCommand)
      → m.key ≡ some key
      → m.value ≡ some value
      → decode_command a key value ≡ some c
      → (run_result a c a.run_raised s.tables).0.completed ≡ true
      → s'.tables ≡ (run_result a c a.run_raised s.tables).1
      → s'.published ≡ s.published
      → s'.committed ≡ s.committed ++ m ∷ []
      → Settlement a m s s'
  retried :
      (attempt delay : ℕ)
      → attempt_of a.is_space m ≡ some attempt
      → attempt < 3
      → retry_delay_seconds (attempt + 1) ≡ some delay
      → s'.published
        ≡ s.published
          ++ retry_publication a (or_empty m.key) (or_empty m.value) (attempt + 1) delay ∷ []
      → s'.committed ≡ s.committed ++ m ∷ []
      → Settlement a m s s'
  dead_lettered :
      (code : _)
      → s'.published
        ≡ s.published ++ dlq_publication a (or_empty m.key) (or_empty m.value) code ∷ []
      → s'.committed ≡ s.committed ++ m ∷ []
      → Settlement a m s s'
  kept :
      s'.published ≡ s.published
      → s'.committed ≡ s.committed
      → s'.rewound ≡ s.rewound ++ (m.topic, m.partition, m.offset) ∷ []
      → any (is_pause_of m) s'.paused_until ≡ true
      → Settlement a m s s'

same_topic_refl : (t : Topic) → same_topic t t ≡ true
same_topic_refl Topic.sync = refl
same_topic_refl Topic.retry = refl
same_topic_refl Topic.dlq = refl

delay_of : (attempt : ℕ) → attempt < 3 → (d : ℕ) × (retry_delay_seconds (attempt + 1) ≡ some d)
unfolding retry_delay_seconds
delay_of attempt h = elim (Bool-cases (attempt == 0)) [
  | inl e ↦ (30, ground (arith, e))
  | inr e ↦ elim (Bool-cases (attempt == 1)) [
    | inl f ↦ (300, ground (arith, f))
    | inr f ↦ (1800, ground (arith, e, f, h))
  ]
]

-- `tables` are those that the message's run left.
module _ (a : Around) (m : Message) (s : Consumer) where
  rewound-kept :
      (tables : _) (at : Option ℕ)
      → Settlement a m s (rewind_and_pause a m at (record s { tables = tables }))
  unfolding rewind_and_pause
  rewound-kept tables at = kept refl refl refl (
      any_last (is_pause_of m) (delete_where (is_pause_of m) s.paused_until) pause
        (ground (arith, ==_refl m.partition, same_topic_refl m.topic)))
    where
      pause : Pause
      pause = record { topic = m.topic; partition = m.partition; until_ms = resume_time a at }

  dlq-settles :
      (tables : _) (code : _)
      → Settlement a m s
          (publish_dlq a m (or_empty m.key) (or_empty m.value) code (record s { tables = tables }))
  unfolding publish_dlq
  dlq-settles tables code = elim (Bool-cases (a.acknowledges p)) [
    | inl e ↦ rw e (dead_lettered code refl refl)
    | inr e ↦ rw e (rewound-kept tables none)
  ]
    where
      p : Publication
      p = dlq_publication a (or_empty m.key) (or_empty m.value) code

  retry-settles :
      (tables : _) (attempt : ℕ)
      → attempt_of a.is_space m ≡ some attempt
      → attempt < 3
      → Settlement a m s (
          publish_retry a m
            (or_empty m.key)
            (or_empty m.value)
            (attempt + 1)
            (record s { tables = tables }))
  unfolding publish_retry
  retry-settles tables attempt known short =
      let (delay, e) = delay_of attempt short in
      rw e (elim (Bool-cases (a.acknowledges (p delay))) [
        | inl f ↦ rw f (retried attempt delay known short e refl refl)
        | inr f ↦ rw f (rewound-kept tables none)
      ])
    where
      p : ℕ → Publication
      p delay = retry_publication a (or_empty m.key) (or_empty m.value) (attempt + 1) delay

  fail-settles :
      (tables : _) (attempt : ℕ) (c : KnowledgeSyncCommand) (code : _)
      → attempt_of a.is_space m ≡ some attempt
      → Settlement a m s (
          fail_message a m
            (or_empty m.key)
            (or_empty m.value)
            attempt
            c
            code
            (record s { tables = tables }))
  unfolding fail_message
  fail-settles tables attempt c code known =
      if_holds (Settlement a m s) a.mark_raises _ _
        (λ e.
          if_holds (Settlement a m s) (ltb attempt 3) _ _
            (λ f. retry-settles tables attempt known (ltb→lt attempt 3 f))
            (λ f. rewound-kept tables none))
        (λ e. dlq-settles (mark_matching_source_failed c code tables) code)

  settle-settles :
      (attempt : ℕ) (c : KnowledgeSyncCommand)
      → attempt_of a.is_space m ≡ some attempt
      → (key value : List ℕ) → m.key ≡ some key
      → m.value ≡ some value
      → decode_command a key value ≡ some c
      → Settlement a m s (run_command a m (or_empty m.key) (or_empty m.value) attempt c s)
  unfolding settle
  settle-settles attempt c known key value k v decoded = elim (Bool-cases result.completed) [
    | inl e ↦ rw e (completed key value c k v decoded e refl refl refl)
    | inr e ↦ rw e (elim (Bool-cases (result.retryable && ltb attempt 3)) [
      | inl f ↦ rw f (retry-settles tables attempt known (ltb→lt attempt 3 (ground (arith, f))))
      | inr f ↦ rw f (fail-settles tables attempt c (code_or_default result.error_code) known)
    ])
  ]
    where
      result : KnowledgeSyncResult
      result = (run_result a c a.run_raised s.tables).0

      tables : Db
      tables = (run_result a c a.run_raised s.tables).1

  bytes-settles :
      (attempt : ℕ)
      → attempt_of a.is_space m ≡ some attempt
      → Settlement a m s (with_bytes a m attempt m.key m.value s)
  bytes-settles attempt known = read m.key m.value refl refl
    where
      decoded :
          (key value : List ℕ) (o : Option KnowledgeSyncCommand)
          → m.key ≡ some key
          → m.value ≡ some value
          → decode_command a key value ≡ o
          → Settlement a m s (run_decoded a m (or_empty m.key) (or_empty m.value) attempt o s)
      decoded key value none k v e = dlq-settles s.tables invalid_event_code
      decoded key value (some c) k v e = settle-settles attempt c known key value k v e

      read :
          (key value : Option (List ℕ))
          → m.key ≡ key
          → m.value ≡ value
          → Settlement a m s (with_bytes a m attempt key value s)
      read none _ k v = dlq-settles s.tables invalid_event_code
      read (some key) none k v = dlq-settles s.tables invalid_event_code
      read (some key) (some value) k v =
          let o = decode_command a key value in
          subst (λ x. Settlement a m s (run_decoded a m x value attempt o s)) (ap or_empty k)
            (subst (λ y. Settlement a m s (run_decoded a m (or_empty m.key) y attempt o s))
              (ap or_empty v) (decoded key value o k v refl))

  -- No message is lost: when `_handle_message` returns, either the message's offset is committed
  -- and the job that its own key and value decode to has completed, or the same key and value were acknowledged by the broker for the
  -- retry topic (with the next attempt, of at most three) or for the dead-letter topic; or
  -- nothing was committed and published, the client is rewound to the message's own offset and
  -- its partition is paused.
  pub handle_message-settles : Settlement a m s (handle_message a m s)
  unfolding handle_message
  handle_message-settles = topic (is_retry_topic m.topic) refl
    where
      metadata :
          (o : Option (ℕ × ℕ))
          → is_retry_topic m.topic ≡ true
          → parse_retry_metadata a.is_space m.headers ≡ o
          → Settlement a m s (on_retry a m o s)
      metadata none t e = dlq-settles s.tables invalid_event_code
      metadata (some (attempt, not_before)) t e =
          if_holds (Settlement a m s) (ltb a.now_ms not_before) _ _
            (λ _. rewound-kept s.tables (some not_before))
            (λ _. bytes-settles attempt (rw (t, e) refl))

      topic :
          (b : Bool)
          → is_retry_topic m.topic ≡ b
          → Settlement a m s (
              if b
              then on_retry a m (parse_retry_metadata a.is_space m.headers) s
              else with_bytes a m 0 m.key m.value s)
      topic true t = metadata (parse_retry_metadata a.is_space m.headers) t refl
      topic false t = bytes-settles 0 (rw t refl)
