-- ===== src/Common/Text.antt =====
-- Python's text operations on code points that several parts use.
use Prim.Native.Nat.{ℕ, zero, suc, ◌+◌, ◌*◌, ◌-◌, ◌/◌, ◌%◌, ◌≤◌, ◌<◌}
use mathlib.Core.Path.{◌≡◌, refl, sym, ap, ◌∙◌}
use mathlib.Core.Logic.{inl, inr}
use mathlib.Core.Bool.{Bool, true, false, not, ◌&&◌}
use mathlib.Core.Option.{Option, none, some}
use mathlib.Core.List.{List, [], ◌∷◌, ◌++◌}
use native.Mathlib.Omega.{arith}
use serviq.Common.Tests.{leb, ltb, ◌==◌, Bool-cases, if_holds, if◌then◌else◌}
use serviq.Common.Tables.{any}
use serviq.Common.Sequences.{append_assoc, append_nil}

abbrev lstrip : (ℕ → Bool) → List ℕ → List ℕ
lstrip space [] = []
lstrip space (c ∷ cs) = let rest = lstrip space cs in if space c then rest else c ∷ cs

-- A character is put in front of stripped text, unless both are blank.
abbrev keep_front : (ℕ → Bool) → ℕ → List ℕ → List ℕ
keep_front space c [] = if space c then [] else c ∷ []
keep_front space c (d ∷ ds) = c ∷ d ∷ ds

abbrev rstrip : (ℕ → Bool) → List ℕ → List ℕ
rstrip space [] = []
rstrip space (c ∷ cs) = keep_front space c (rstrip space cs)

-- `str.strip()`
unfoldable pub strip : (ℕ → Bool) → List ℕ → List ℕ
strip space cs = rstrip space (lstrip space cs)

-- `str(n)`, by fuel; `n` is always enough.
abbrev decimal_by : ℕ → ℕ → List ℕ
decimal_by zero n = (48 + n) ∷ []
decimal_by (suc fuel) n =
    let rest = decimal_by fuel (n / 10) in
    if ltb n 10 then (48 + n) ∷ [] else rest ++ (48 + n % 10) ∷ []

unfoldable pub decimal : ℕ → List ℕ
decimal n = decimal_by n n

abbrev pub is_digit : ℕ → Bool
is_digit c = leb 48 c && leb c 57

-- The digits of `int(text, 10)`, with single underscores between them.
abbrev digits_value : ℕ → Bool → List ℕ → Option ℕ
digits_value value must [] = if must then none else some value
digits_value value must (c ∷ cs) =
    let digit = digits_value (value * 10 + (c - 48)) false cs in
    let underscore = digits_value value true cs in
    if is_digit c then digit else if c == 95 && not must then underscore else none

-- `int(text, 10)` where it is not negative: a sign and the limit of 4300 digits of CPython.
-- A negative number stands for none here.
abbrev pub digit_count : List ℕ → ℕ
digit_count [] = 0
digit_count (c ∷ cs) = (if is_digit c then 1 else 0) + digit_count cs

abbrev unsigned_value : List ℕ → Option ℕ
unsigned_value cs = if leb (digit_count cs) 4300 then digits_value 0 true cs else none

abbrev signed_value : List ℕ → Option ℕ
signed_value [] = none
signed_value (c ∷ cs) = if c == 43 then unsigned_value cs else unsigned_value (c ∷ cs)

unfoldable pub int_value : (ℕ → Bool) → List ℕ → Option ℕ
int_value space cs = signed_value (strip space cs)

-- Reading back what `decimal` wrote.
one_digit :
    (value : ℕ) (must : Bool) (n m : ℕ) (rest : List ℕ)
    → n < 10
    → value * 10 + n ≡ m
    → digits_value value must ((48 + n) ∷ rest) ≡ digits_value m false rest
one_digit value must n m rest h e = rw (is_digit_lem n h, sum_eq value n m e) refl
  where
    sum_eq : (value n m : ℕ) → value * 10 + n ≡ m → value * 10 + (48 + n - 48) ≡ m
    sum_eq value n m e = omega arith

    is_digit_lem : (n : ℕ) → n < 10 → (leb 48 (48 + n) && leb (48 + n) 57) ≡ true
    is_digit_lem n h = ground (arith, h)

digits_read :
    (fuel n : ℕ) (rest : List ℕ)
    → n ≤ fuel
    → digits_value 0 true (decimal_by fuel n ++ rest) ≡ digits_value n false rest
digits_read zero n rest h = one_digit 0 true n n rest (omega arith) (omega arith)
digits_read (suc fuel) n rest h = elim (Bool-cases (ltb n 10)) [
  | inl e ↦ rw e (one_digit 0 true n n rest (ground (arith, e)) (omega arith))
  | inr e ↦ rw e (
      ap (digits_value 0 true) (append_assoc (decimal_by fuel (n / 10)) ((48 + n % 10) ∷ []) rest)
      ∙ digits_read fuel (n / 10) ((48 + n % 10) ∷ rest) (omega arith)
      ∙ one_digit (n / 10) false (n % 10) n rest (omega arith) (omega arith))
]

AllOf : (ℕ → Bool) → List ℕ → Type 0
AllOf p [] = Unit {0}
AllOf p (c ∷ cs) = (p c ≡ true) × AllOf p cs

AllOf-append : (p : ℕ → Bool) (xs ys : List ℕ) → AllOf p xs → AllOf p ys → AllOf p (xs ++ ys)
unfolding AllOf
AllOf-append p [] ys h k = k
AllOf-append p (x ∷ xs) ys h k = (h.0, AllOf-append p xs ys h.1 k)

decimal_by-AllOf : (fuel n : ℕ) → n ≤ fuel → AllOf is_digit (decimal_by fuel n)
unfolding AllOf
decimal_by-AllOf zero n h = (ground (arith, h), tt)
decimal_by-AllOf (suc fuel) n h =
    if_holds (AllOf is_digit) (ltb n 10) ((48 + n) ∷ [])
      (decimal_by fuel (n / 10) ++ (48 + n % 10) ∷ []) (λ e. (ground (arith, e), tt))
      (λ e.
        AllOf-append is_digit (decimal_by fuel (n / 10)) ((48 + n % 10) ∷ [])
          (decimal_by-AllOf fuel (n / 10) (ground (arith, e, h))) (ground arith, tt))

-- Decimals are ASCII.
ascii_digits : (cs : List ℕ) → AllOf is_digit cs → any (λ c. leb 128 c) cs ≡ false
unfolding AllOf
ascii_digits [] h = refl
ascii_digits (c ∷ cs) h = ground (arith, h.0, ascii_digits cs h.1)

pub decimal-ascii : (n : ℕ) → any (λ c. leb 128 c) (decimal n) ≡ false
unfolding decimal
decimal-ascii n = ascii_digits (decimal_by n n) (decimal_by-AllOf n n (omega arith))

module _ (space : ℕ → Bool) (digits_show : (c : ℕ) → is_digit c ≡ true → space c ≡ false) where
  strip-digits : (cs : List ℕ) → AllOf is_digit cs → strip space cs ≡ cs
  unfolding AllOf strip
  strip-digits [] h = refl
  strip-digits (c ∷ cs) h = rw (digits_show c h.0) (right (c ∷ cs) h)
    where
      right : (cs : List ℕ) → AllOf is_digit cs → rstrip space cs ≡ cs
      right [] h = refl
      right (c ∷ []) h = rw (digits_show c h.0) refl
      right (c ∷ d ∷ cs) h = rw (right (d ∷ cs) h.1) refl

  unsigned : (cs : List ℕ) → AllOf is_digit cs → signed_value cs ≡ unsigned_value cs
  unfolding AllOf
  unsigned [] h = refl
  unsigned (c ∷ cs) h = ground (arith, h.0)

  -- A number that is written in decimal and fits the limit is read back.
  pub int_value-decimal :
      (n : ℕ) → digit_count (decimal n) ≤ 4300 → int_value space (decimal n) ≡ some n
  unfolding int_value decimal
  int_value-decimal n short =
      ap signed_value (strip-digits (decimal_by n n) digits)
      ∙ unsigned (decimal_by n n) digits
      ∙ rw (limit (digit_count (decimal_by n n)) short) whole
    where
      digits : AllOf is_digit (decimal_by n n)
      digits = decimal_by-AllOf n n (omega arith)

      limit : (k : ℕ) → k ≤ 4300 → leb k 4300 ≡ true
      limit k h = ground (arith, h)

      whole : digits_value 0 true (decimal_by n n) ≡ some n
      whole =
          ap (digits_value 0 true) (sym (append_nil (decimal_by n n)))
          ∙ digits_read n n [] (omega arith)
