-- ===== src/Worker/Consumer/Retries.antt =====
-- The retries of services/worker/app/consumers/knowledge_sync.py: what a retry message carries,
-- and how many there are.
use serviq.Common.{
  ℕ, zero, suc, ◌+◌, ◌*◌, ◌≤◌, ◌<◌, ◌≡◌, refl, sym, ap, ◌∙◌, Option, none, some, some-injective,
  inl, inr, ◌⊎◌, String, Bool, true, false, List, [], ◌∷◌, ◌++◌, map, arith, decimal, is_digit,
  digit_count, int_value-decimal, decimal-ascii, length, length-append,
}
use serviq.Worker.Consumer.{
  Header, Message, Publication, Around, Consumer, is_retry_topic, header_value,
  parse_positive_ascii_int, retry_metadata, parse_retry_metadata, retry_publication,
  dlq_publication, or_empty, handle_message,
}
use serviq.Worker.Consumer.Settles.{
  attempt_of, first_of, Settlement, completed, retried, dead_lettered, kept, handle_message-settles,
}

-- A publication as the broker gives it to a consumer.
abbrev as_header : String × List ℕ → Header
as_header (name, value) = record { name = name; value = some value }

abbrev pub redelivered : Publication → ℕ → ℕ → Message
redelivered p partition offset = record {
  topic = p.topic;
  partition = partition;
  offset = offset;
  key = some p.key;
  value = some p.value;
  headers = map as_header p.headers;
}

module _ (space : ℕ → Bool) (digits_show : (c : ℕ) → is_digit c ≡ true → space c ≡ false) where
  -- A positive number that is short enough is read from the bytes that were written for it.
  parse-decimal :
      (n : ℕ)
      → 0 < n
      → digit_count (decimal n) ≤ 4300
      → parse_positive_ascii_int space (some (decimal n)) ≡ some n
  unfolding parse_positive_ascii_int
  parse-decimal n pos short =
      rw (decimal-ascii n, int_value-decimal space digits_show n short) (ground (arith, pos))

  few_digits : (n : ℕ) → n ≤ 3 → digit_count (decimal n) ≤ 4300
  unfolding decimal
  few_digits zero h = ground arith
  few_digits (suc zero) h = ground arith
  few_digits (suc (suc zero)) h = ground arith
  few_digits (suc (suc (suc zero))) h = ground arith
  few_digits (suc (suc (suc (suc n)))) h = absurd (omega (arith, h))

  -- The headers that `_publish_retry` writes are the metadata that `_parse_retry_metadata`
  -- reads: the attempt, from 1 to 3, and the time. The digits are no white space, and the time
  -- is positive and has at most 4300 digits.
  pub parse_retry_metadata-retry_publication :
      (a : Around) (key value : List ℕ) (attempt delay partition offset : ℕ)
      → 0 < attempt
      → attempt ≤ 3
      → 0 < a.publish_ms
      → digit_count (decimal (a.publish_ms + delay * 1000)) ≤ 4300
      → parse_retry_metadata space
          (redelivered (retry_publication a key value attempt delay) partition offset).headers
        ≡ some (attempt, a.publish_ms + delay * 1000)
  unfolding parse_retry_metadata header_value
  parse_retry_metadata-retry_publication a key value attempt delay partition offset pos few clock
        short =
      rw
        (
          parse-decimal attempt pos (few_digits attempt few),
          parse-decimal (a.publish_ms + delay * 1000) (omega arith) short,
        )
        (ground (arith, few))

  -- What the metadata of a retry message say of its attempt.
  first_of_retry :
      (n : ℕ) (o : Option ℕ)
      → (first_of (retry_metadata (some n) o) ≡ none)
        ⊎ (first_of (retry_metadata (some n) o) ≡ some n)
  first_of_retry n none = inl refl
  first_of_retry n (some t) = ground arith

  retried-attempt :
      (a : Around) (key value : List ℕ) (attempt delay partition offset : ℕ)
      → attempt < 3
      → (attempt_of space
            (redelivered (retry_publication a key value (attempt + 1) delay) partition offset)
          ≡ none)
        ⊎ (attempt_of space
              (redelivered (retry_publication a key value (attempt + 1) delay) partition offset)
            ≡ some (attempt + 1))
  unfolding parse_retry_metadata header_value
  retried-attempt a key value attempt delay partition offset few =
      rw (parse-decimal (attempt + 1) (omega arith) (few_digits (attempt + 1) (omega arith))) (
        first_of_retry (attempt + 1)
          (parse_positive_ascii_int space (some (decimal (a.publish_ms + delay * 1000)))))

-- `n` retries follow on a message: each was published by a call that handled the one before,
-- with the consumer in any state, and was delivered to any partition.
pub data Retries (space : ℕ → Bool) : ℕ → Message → Type 0 where
  last : (m : Message) → Retries space 0 m
  again :
      (n partition offset : ℕ) (a : Around) (m : Message) (s : Consumer) (p : Publication)
      → (handle_message (record a { is_space = space }) m s).published ≡ s.published ++ p ∷ []
      → is_retry_topic p.topic ≡ true
      → Retries space n (redelivered p partition offset)
      → Retries space (suc n) m

one_more : (xs : List Publication) (p : Publication) → xs ≡ xs ++ p ∷ [] → ⊥
one_more xs p e = omega (arith, ap length e, length-append xs (p ∷ []))

same_last : (xs : List Publication) (p q : Publication) → xs ++ p ∷ [] ≡ xs ++ q ∷ [] → p ≡ q
same_last [] p q e = cc
same_last (x ∷ xs) p q e = same_last xs p q (cc)

module _ (space : ℕ → Bool) (digits_show : (c : ℕ) → is_digit c ≡ true → space c ≡ false) where
  -- A retry comes from an attempt below three, with the next one in its headers.
  retry_source :
      (a : Around) (m : Message) (s : Consumer) (p : Publication)
      → (handle_message (record a { is_space = space }) m s).published ≡ s.published ++ p ∷ []
      → is_retry_topic p.topic ≡ true
      → (attempt delay : ℕ) × (attempt_of space m ≡ some attempt)
        × (attempt < 3)
        × (retry_publication a (or_empty m.key) (or_empty m.value) (attempt + 1) delay ≡ p)
  retry_source a m s p wrote isretry =
      from (handle_message-settles (record a { is_space = space }) m s)
    where
      from :
          Settlement
            (record a { is_space = space })
            m
            s
            (handle_message (record a { is_space = space }) m s)
          → (attempt delay : ℕ) × (attempt_of space m ≡ some attempt)
            × (attempt < 3)
            × (retry_publication a (or_empty m.key) (or_empty m.value) (attempt + 1) delay ≡ p)
      from (completed _ _ _ _ _ _ _ _ none_published _) =
          absurd (one_more s.published p (sym none_published ∙ wrote))
      from (retried attempt delay known few _ published _) =
          (attempt, delay, known, few, same_last s.published _ p (sym published ∙ wrote))
      from (dead_lettered code published _) =
          let e : dlq_publication (record a { is_space = space }) (or_empty m.key)
                (or_empty m.value) code
              ≡ p =
            same_last s.published _ p (sym published ∙ wrote) in
          absurd (ground (arith, ap (λ q. is_retry_topic q.topic) e, isretry))
      from (kept none_published _ _ _) =
          absurd (one_more s.published p (sym none_published ∙ wrote))

  bounded_by_attempt :
      (n : ℕ) (m : Message)
      → Retries space n m
      → (attempt_of space m ≡ none → n ≡ 0)
        × ((k : ℕ) → attempt_of space m ≡ some k → k ≤ 3 → n + k ≤ 3)
        × (n ≤ 3)
  bounded_by_attempt _ _ (last m) = (λ _. refl, λ k e few. omega (arith, few), omega arith)
  bounded_by_attempt _ _ (again n partition offset a m s p wrote isretry rest) =
      let (attempt, delay, known, few, e) = retry_source a m s p wrote isretry in
      let (stops, goes, _) = bounded_by_attempt n (redelivered p partition offset) rest in
      let bound : n + (attempt + 1) ≤ 3 =
        elim (retried-attempt space digits_show a (or_empty m.key) (or_empty m.value) attempt delay
          partition offset few) [
            | inl none_left ↦ omega (
              arith,
              few,
              stops
                  (ap (λ q. attempt_of space (redelivered q partition offset)) (sym e) ∙ none_left),
            )
            | inr next ↦
                goes (attempt + 1)
                  (ap (λ q. attempt_of space (redelivered q partition offset)) (sym e) ∙ next)
                  (omega (arith, few))
          ] in
      (
        λ none_here. absurd (cc),
        λ k here _. omega (arith, bound, some-injective attempt k (sym known ∙ here)),
        omega (arith, bound),
      )

  -- Retrying ends: a message of either topic is followed by at most three retries, whatever its
  -- runs, the broker, the clocks and the consumer's states are. The digits are no white space.
  pub Retries-le : (n : ℕ) (m : Message) → Retries space n m → n ≤ 3
  Retries-le n m rs = (bounded_by_attempt n m rs).2
