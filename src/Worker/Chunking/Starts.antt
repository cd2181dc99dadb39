-- ===== src/Worker/Chunking/Starts.antt =====
-- Tokens stand in the order of the text, so windows start in ascending order.
use serviq.Common.{
  ℕ, zero, suc, ◌-◌, ◌≤◌, ◌<◌, ◌≡◌, refl, sym, ap, ◌∙◌, subst, inl, inr, Option, none, some, Bool,
  List, [], ◌∷◌, ◌++◌, map, take, drop, arith, length, append_assoc, length-append, take-drop,
  Bool-cases,
}
use serviq.Worker.Chunking.{
  ChunkPolicy, Token, Window, window_of, find_tokens, tokens, slide, window_tokens,
}
use serviq.Worker.Chunking.Windows.{IsTurn, next-IsTurn, slide_full, whole_turn, first-IsTurn}

-- No token starts before `from`, and each starts no later than the next.
abbrev pub Rising : ℕ → List Token → Type 0
Rising from [] = Unit
Rising from (t ∷ ts) = (from ≤ t.start) × Rising t.start ts

Rising-lower : (a b : ℕ) (ts : List Token) → b ≤ a → Rising a ts → Rising b ts
Rising-lower a b [] h up = tt
Rising-lower a b (t ∷ ts) h up = (omega (arith, up.0), up.1)

Rising-drop : (a k : ℕ) (ts : List Token) → Rising a ts → Rising a (drop k ts)
Rising-drop a zero ts up = up
Rising-drop a (suc k) [] up = tt
Rising-drop a (suc k) (t ∷ ts) up =
    Rising-lower t.start a (drop k ts) up.0 (Rising-drop t.start k ts up.1)

-- Where the next token starts at the earliest.
abbrev opened : ℕ → Option ℕ → ℕ
opened i none = i
opened i (some a) = a

Rising-find_tokens :
    (is_space : ℕ → Bool) (i : ℕ) (o : Option ℕ) (text : List ℕ)
    → opened i o ≤ i
    → Rising (opened i o) (find_tokens is_space i o text)
unfolding find_tokens
Rising-find_tokens is_space i none [] h = tt
Rising-find_tokens is_space i (some a) [] h = (omega arith, tt)
Rising-find_tokens is_space i none (x ∷ xs) h = elim (Bool-cases (is_space x)) [
  | inl space ↦
      rw (space, Rising)
        (Rising-lower (suc i) i _ (omega arith)
          (Rising-find_tokens is_space (suc i) none xs (omega arith)))
  | inr char ↦ rw (char, Rising) (Rising-find_tokens is_space (suc i) (some i) xs (omega arith))
]
Rising-find_tokens is_space i (some a) (x ∷ xs) h = elim (Bool-cases (is_space x)) [
  | inl space ↦
      rw (space, Rising)
        (
          omega arith,
          Rising-lower (suc i) a _ (omega (arith, h))
              (Rising-find_tokens is_space (suc i) none xs (omega arith)),
        )
  | inr char ↦
      rw (char, Rising) (Rising-find_tokens is_space (suc i) (some a) xs (omega (arith, h)))
]

-- No window starts before `from`, and each starts no later than the next.
abbrev pub Climbs : ℕ → List Window → Type 0
Climbs from [] = Unit
Climbs from (w ∷ ws) = (from ≤ w.char_start) × Climbs w.char_start ws

Rising-head :
    (from : ℕ) (w more : List Token)
    → 1 ≤ length w
    → Rising from (w ++ more)
    → (from ≤ (window_of w).char_start) × Rising (window_of w).char_start (w ++ more)
Rising-head from [] more h up = ground arith
Rising-head from (t ∷ ts) more h up = (up.0, (omega arith, up.1))

drop-append_le :
    {A : Type 0} (k : ℕ) (xs ys : List A) → k ≤ length xs → drop k (xs ++ ys) ≡ drop k xs ++ ys
drop-append_le zero xs ys h = refl
drop-append_le (suc k) [] ys h = ground arith
drop-append_le (suc k) (x ∷ xs) ys h = drop-append_le k xs ys (omega arith)

slide-Climbs :
    (p : ChunkPolicy) (n from : ℕ) (w more : List Token)
    → p.overlap_tokens < p.max_tokens
    → IsTurn p n w more
    → 1 ≤ length w
    → Rising from (w ++ more)
    → Climbs from (map window_of (slide p n w more))
slide-Climbs p zero from w more ok h some_w up =
    unfold slide in ((Rising-head from w more some_w up).0, tt)
slide-Climbs p (suc n) from w [] ok h some_w up =
    unfold slide in ((Rising-head from w [] some_w up).0, tt)
slide-Climbs p (suc n) from w (t ∷ more) ok h some_w up =
    let k = p.max_tokens - p.overlap_tokens in
    let kept = drop k w ++ t ∷ [] in
    let room = p.max_tokens - length kept in
    let whole = whole_turn p n w more t h in
    let turn = next-IsTurn p n w more t ok whole h.fuel in
    let (low, above) = Rising-head from w (t ∷ more) some_w up in
    let later = Rising-drop (window_of w).char_start k (w ++ t ∷ more) above in
    let laid : drop k (w ++ t ∷ more) ≡ kept ++ take room more ++ drop room more =
      drop-append_le k w (t ∷ more) (omega (arith, whole))
      ∙ ap (λ x. drop k w ++ t ∷ x) (sym (take-drop room more))
      ∙ sym (append_assoc (drop k w) (t ∷ []) (take room more ++ drop room more))
      ∙ sym (append_assoc kept (take room more) (drop room more)) in
    let size : 1 ≤ length (kept ++ take room more) =
      omega (arith, length-append (drop k w) (t ∷ []), length-append kept (take room more)) in
    subst (λ x. Climbs from (map window_of x)) (sym (slide_full p n w more t whole))
      (
        low,
        slide-Climbs p n (window_of w).char_start (kept ++ take room more) (drop room more) ok turn
            size (subst (Rising (window_of w).char_start) laid later),
      )

length-take_some : {A : Type 0} (n : ℕ) (x : A) (xs : List A) → 0 < n → 1 ≤ length (take n (x ∷ xs))
length-take_some zero x xs h = ground arith
length-take_some (suc n) x xs h = omega arith

-- The windows of a text that has a token start in ascending order.
pub windows-Climbs :
    (is_space : ℕ → Bool) (text : List ℕ) (p : ChunkPolicy) (t : Token) (ts : List Token)
    → p.overlap_tokens < p.max_tokens
    → tokens is_space text ≡ t ∷ ts
    → Climbs 0 (map window_of (window_tokens p (t ∷ ts)))
unfolding window_tokens
windows-Climbs is_space text p t ts ok e =
    let up : Rising 0 (t ∷ ts) =
      subst (Rising 0) e (Rising-find_tokens is_space 0 none text (omega arith)) in
    slide-Climbs p (length (t ∷ ts)) 0 (take p.max_tokens (t ∷ ts)) (drop p.max_tokens (t ∷ ts)) ok
      (first-IsTurn p (t ∷ ts)) (length-take_some p.max_tokens t ts (omega (arith, ok)))
      (subst (Rising 0) (sym (take-drop p.max_tokens (t ∷ ts))) up)
