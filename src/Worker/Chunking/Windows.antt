-- ===== src/Worker/Chunking/Windows.antt =====
-- The token windows: what they hold together, their sizes, and how they overlap.
use serviq.Common.{
  ℕ, zero, suc, ◌+◌, ◌-◌, ◌≤◌, ◌<◌, ◌≡◌, refl, sym, ap, ◌∙◌, subst, inl, inr, false, List, [], ◌∷◌,
  ◌++◌, take, drop, length-append, length-drop, length-take, take-drop, append_assoc, drop-append,
  take-append, nil_of_length, drop_short, take_more, arith, length, ltb, Bool-cases,
}
use serviq.Worker.Chunking.{ChunkPolicy, Token, slide, window_tokens}

-- What each window adds to the one before.
abbrev pub fresh : ℕ → List (List Token) → List Token
fresh overlap [] = []
fresh overlap (w ∷ ws) = drop overlap w ++ fresh overlap ws

-- What a turn of the loop may rely on: the deque is within its bound, it is full while the
-- iterator has more, and the fuel is enough for what it has.
pub record IsTurn (p : ChunkPolicy) (n : ℕ) (w more : List Token) : Type 0 where
  pub small : length w ≤ p.max_tokens
  pub full : length w < p.max_tokens → more ≡ []
  pub fuel : length more ≤ n

pub next-IsTurn :
    (p : ChunkPolicy) (n : ℕ) (w more : List Token) (t : Token)
    → p.overlap_tokens < p.max_tokens
    → length w ≡ p.max_tokens
    → length (t ∷ more) ≤ suc n
    → let kept = drop (p.max_tokens - p.overlap_tokens) w ++ t ∷ [] in
      let room = p.max_tokens - length kept in IsTurn p n (kept ++ take room more) (drop room more)
next-IsTurn p n w more t ok whole fuel =
    let kept = drop (p.max_tokens - p.overlap_tokens) w ++ t ∷ [] in
    let room = p.max_tokens - length kept in
    let size : length kept ≡ p.overlap_tokens + 1 = omega (
      arith,
      length-append (drop (p.max_tokens - p.overlap_tokens) w) (t ∷ []),
      length-drop (p.max_tokens - p.overlap_tokens) w,
    ) in
    record {
      small = omega (arith, size, length-append kept (take room more), length-take room more);
      full =
          λ h. drop_short room more (omega (arith, size, length-append kept (take room more), h));
      fuel = omega (arith, length-drop room more, fuel);
    }

pub slide_full :
    (p : ChunkPolicy) (n : ℕ) (w more : List Token) (t : Token)
    → length w ≡ p.max_tokens
    → let kept = drop (p.max_tokens - p.overlap_tokens) w ++ t ∷ [] in
      let room = p.max_tokens - length kept in
      slide p (suc n) w (t ∷ more) ≡ w ∷ slide p n (kept ++ take room more) (drop room more)
unfolding slide
slide_full p n w more t whole =
    let full : ltb (length w) p.max_tokens ≡ false = ground (arith, whole) in rw full refl

pub whole_turn :
    (p : ChunkPolicy) (n : ℕ) (w more : List Token) (t : Token)
    → IsTurn p (suc n) w (t ∷ more)
    → length w ≡ p.max_tokens
whole_turn p n w more t h = elim (Bool-cases (ltb (length w) p.max_tokens)) [
  | inl short ↦ absurd (cc (h.full (ground (arith, short))))
  | inr full ↦ ground (arith, full, h.small)
]

fresh-slide :
    (p : ChunkPolicy) (n : ℕ) (w more : List Token)
    → p.overlap_tokens < p.max_tokens
    → IsTurn p n w more
    → fresh p.overlap_tokens (slide p n w more) ≡ drop p.overlap_tokens w ++ more
fresh-slide p zero w more ok h =
    let none_left : more ≡ [] = nil_of_length more h.fuel in unfold slide in rw none_left refl
fresh-slide p (suc n) w [] ok h = unfold slide in refl
fresh-slide p (suc n) w (t ∷ more) ok h =
    let k = p.max_tokens - p.overlap_tokens in
    let kept = drop k w ++ t ∷ [] in
    let room = p.max_tokens - length kept in
    let whole = whole_turn p n w more t h in
    let turn = next-IsTurn p n w more t ok whole h.fuel in
    let old : length (drop k w) ≡ p.overlap_tokens = omega (arith, length-drop k w, whole, ok) in
    let added : drop p.overlap_tokens (kept ++ take room more) ≡ t ∷ take room more =
      ap (drop p.overlap_tokens) (append_assoc (drop k w) (t ∷ []) (take room more))
      ∙ drop-append p.overlap_tokens (drop k w) (t ∷ take room more) old in
    ap (fresh p.overlap_tokens) (slide_full p n w more t whole)
    ∙ ap (◌++◌ (drop p.overlap_tokens w)) (
        fresh-slide p n (kept ++ take room more) (drop room more) ok turn
        ∙ ap (λ x. x ++ drop room more) added
        ∙ ap (◌∷◌ t) (take-drop room more))

pub first-IsTurn :
    (p : ChunkPolicy) (ts : List Token)
    → IsTurn p (length ts) (take p.max_tokens ts) (drop p.max_tokens ts)
first-IsTurn p ts = record {
  small = length-take p.max_tokens ts;
  full = λ h. drop_short p.max_tokens ts h;
  fuel = omega (arith, length-drop p.max_tokens ts);
}

-- The windows lose no token and add none: the first tokens up to the overlap, followed by what
-- each window has beyond its overlap with the window before, are all the tokens in their order.
-- The condition is the policy's, that the overlap is below the window size.
pub window_tokens_cover :
    (p : ChunkPolicy) (ts : List Token)
    → p.overlap_tokens < p.max_tokens
    → take p.overlap_tokens ts ++ fresh p.overlap_tokens (window_tokens p ts) ≡ ts
unfolding window_tokens
window_tokens_cover p ts ok =
    let m = p.max_tokens in
    let k = p.overlap_tokens in
    ap (◌++◌ (take k ts)) (fresh-slide p (length ts) (take m ts) (drop m ts) ok (first-IsTurn p ts))
    ∙ sym (append_assoc (take k ts) (drop k (take m ts)) (drop m ts))
    ∙ ap (λ x. x ++ drop m ts) (take_more k m ts (omega arith))
    ∙ take-drop m ts

-- A window that is not the last is full, and its last `overlap_tokens` begin the next one.
pub record Overlaps (p : ChunkPolicy) (w next : List Token) : Type 0 where
  pub full : length w ≡ p.max_tokens
  pub shared : drop (p.max_tokens - p.overlap_tokens) w ≡ take p.overlap_tokens next
  pub grows : p.overlap_tokens < length next

abbrev HasFollower : ChunkPolicy → List Token → List (List Token) → Type 0
HasFollower p w [] = Unit
HasFollower p w (next ∷ ws) = Overlaps p w next

abbrev pub IsChain : ChunkPolicy → List (List Token) → Type 0
IsChain p [] = Unit
IsChain p (w ∷ ws) = (length w ≤ p.max_tokens) × HasFollower p w ws × IsChain p ws

slide-head :
    (p : ChunkPolicy) (n : ℕ) (w more : List Token)
    → (ws : List (List Token)) × (slide p n w more ≡ w ∷ ws)
unfolding slide
slide-head p zero w more = ([], refl)
slide-head p (suc n) w [] = ([], refl)
slide-head p (suc n) w (t ∷ more) = elim (Bool-cases (ltb (length w) p.max_tokens)) [
  | inl short ↦ ([], rw short refl)
  | inr full ↦ (
    slide p n
        (drop (p.max_tokens - p.overlap_tokens) w
          ++ t ∷ []
          ++ take (p.max_tokens - length (drop (p.max_tokens - p.overlap_tokens) w ++ t ∷ [])) more)
        (drop (p.max_tokens - length (drop (p.max_tokens - p.overlap_tokens) w ++ t ∷ [])) more),
    rw full refl,
  )
]

slide-IsChain :
    (p : ChunkPolicy) (n : ℕ) (w more : List Token)
    → p.overlap_tokens < p.max_tokens
    → IsTurn p n w more
    → IsChain p (slide p n w more)
slide-IsChain p zero w more ok h = unfold slide in (h.small, tt, tt)
slide-IsChain p (suc n) w [] ok h = unfold slide in (h.small, tt, tt)
slide-IsChain p (suc n) w (t ∷ more) ok h =
    let k = p.max_tokens - p.overlap_tokens in
    let kept = drop k w ++ t ∷ [] in
    let room = p.max_tokens - length kept in
    let whole = whole_turn p n w more t h in
    let turn = next-IsTurn p n w more t ok whole h.fuel in
    let old : length (drop k w) ≡ p.overlap_tokens = omega (arith, length-drop k w, whole, ok) in
    let laid = append_assoc (drop k w) (t ∷ []) (take room more) in
    let shared : drop k w ≡ take p.overlap_tokens (kept ++ take room more) = sym (
      ap (take p.overlap_tokens) laid
      ∙ take-append p.overlap_tokens (drop k w) (t ∷ take room more) old) in
    let grows : p.overlap_tokens < length (kept ++ take room more) =
      omega (arith, old, length-append (drop k w) (t ∷ []), length-append kept (take room more)) in
    let link : Overlaps p w (kept ++ take room more) = record {
      full = whole;
      shared = shared;
      grows = grows;
    } in
    let (ws, e) = slide-head p n (kept ++ take room more) (drop room more) in
    let rest = slide-IsChain p n (kept ++ take room more) (drop room more) ok turn in
    subst (IsChain p) (sym (slide_full p n w more t whole))
      (h.small, subst (HasFollower p w) (sym e) link, rest)

-- Each window has at most `max_tokens`; each but the last has exactly that many, its last
-- `overlap_tokens` are the first of the next one, and the next one goes on beyond them.
pub window_tokens-IsChain :
    (p : ChunkPolicy) (ts : List Token)
    → p.overlap_tokens < p.max_tokens
    → IsChain p (window_tokens p ts)
unfolding window_tokens
window_tokens-IsChain p ts ok =
    slide-IsChain p (length ts) (take p.max_tokens ts) (drop p.max_tokens ts) ok (first-IsTurn p ts)
