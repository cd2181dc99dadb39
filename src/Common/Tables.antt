-- ===== src/Common/Tables.antt =====
-- A database table as a list of rows, in insertion order, with the SQL statements that the
-- repositories use: count, sum, select one, delete and update under a predicate.
use Prim.Native.Nat.{ℕ, suc, ◌+◌, ◌≤◌}
use mathlib.Core.Path.{◌≡◌, refl, subst}
use mathlib.Core.Bool.{Bool, true, false, ◌&&◌, ◌||◌}
use mathlib.Core.Option.{Option, none, some, some-injective}
use mathlib.Core.List.{List, [], ◌∷◌, ◌++◌}
use native.Mathlib.Omega.{arith}
use serviq.Common.Tests.{if◌then◌else◌}

module _ {ℓ} {A : Type ℓ} where
  abbrev pub length : List A → ℕ
  length [] = 0
  length (x ∷ xs) = suc (length xs)

  -- SELECT count(*) WHERE p
  abbrev pub count_where : (A → Bool) → List A → ℕ
  count_where p [] = 0
  count_where p (x ∷ xs) = (if p x then 1 else 0) + count_where p xs

  -- SELECT coalesce(sum(f), 0) WHERE p
  abbrev pub sum_where : (A → Bool) → (A → ℕ) → List A → ℕ
  sum_where p f [] = 0
  sum_where p f (x ∷ xs) = (if p x then f x else 0) + sum_where p f xs

  -- The first row under `p`; at most one fits where `p` names a unique key.
  abbrev pub find_where : (A → Bool) → List A → Option A
  find_where p [] = none
  find_where p (x ∷ xs) = if p x then some x else find_where p xs

  -- EXISTS (SELECT * WHERE p)
  abbrev pub any : (A → Bool) → List A → Bool
  any p [] = false
  any p (x ∷ xs) = p x || any p xs

  -- SELECT * WHERE p
  abbrev pub filter_where : (A → Bool) → List A → List A
  filter_where p [] = []
  filter_where p (x ∷ xs) = let rest = filter_where p xs in if p x then x ∷ rest else rest

  -- DELETE WHERE p
  abbrev pub delete_where : (A → Bool) → List A → List A
  delete_where p [] = []
  delete_where p (x ∷ xs) = let rest = delete_where p xs in if p x then rest else x ∷ rest

  -- UPDATE WHERE p
  abbrev pub update_where : (A → Bool) → (A → A) → List A → List A
  update_where p f [] = []
  update_where p f (x ∷ xs) = (if p x then f x else x) ∷ update_where p f xs

  pub find_where_holds :
      (p : A → Bool) (xs : List A) (a : A) → find_where p xs ≡ some a → p a ≡ true
  find_where_holds p [] a h = ground arith
  find_where_holds p (x ∷ xs) a h = ground (arith, find_where_holds p xs a)

  pub count_where-append :
      (p : A → Bool) (xs ys : List A)
      → count_where p (xs ++ ys) ≡ count_where p xs + count_where p ys
  count_where-append p [] ys = omega arith
  count_where-append p (x ∷ xs) ys = omega (arith, count_where-append p xs ys)

  pub sum_where-append :
      (p : A → Bool) (f : A → ℕ) (xs ys : List A)
      → sum_where p f (xs ++ ys) ≡ sum_where p f xs + sum_where p f ys
  sum_where-append p f [] ys = omega arith
  sum_where-append p f (x ∷ xs) ys = omega (arith, sum_where-append p f xs ys)

  pub count_where-delete_where-le :
      (p q : A → Bool) (xs : List A) → count_where p (delete_where q xs) ≤ count_where p xs
  count_where-delete_where-le p q [] = omega arith
  count_where-delete_where-le p q (x ∷ xs) = ground (arith, count_where-delete_where-le p q xs)

  pub sum_where-delete_where-le :
      (p q : A → Bool) (f : A → ℕ) (xs : List A)
      → sum_where p f (delete_where q xs) ≤ sum_where p f xs
  sum_where-delete_where-le p q f [] = omega arith
  sum_where-delete_where-le p q f (x ∷ xs) = ground (arith, sum_where-delete_where-le p q f xs)

  -- A row under `p` that is deleted gives back at least its own share.
  pub count_where-delete_found :
      (p q : A → Bool) (xs : List A) (a : A)
      → find_where q xs ≡ some a
      → p a ≡ true
      → count_where p (delete_where q xs) + 1 ≤ count_where p xs
  count_where-delete_found p q [] a h k = ground arith
  count_where-delete_found p q (x ∷ xs) a h k =
      ground (arith, count_where-delete_found p q xs a, count_where-delete_where-le p q xs)

  pub sum_where-delete_found :
      (p q : A → Bool) (f : A → ℕ) (xs : List A) (a : A)
      → find_where q xs ≡ some a
      → p a ≡ true
      → sum_where p f (delete_where q xs) + f a ≤ sum_where p f xs
  sum_where-delete_found p q f [] a h k = ground arith
  sum_where-delete_found p q f (x ∷ xs) a h k =
      ground (arith, sum_where-delete_found p q f xs a, sum_where-delete_where-le p q f xs)

  pub find_where-delete_where_self :
      (p : A → Bool) (xs : List A) → find_where p (delete_where p xs) ≡ none
  find_where-delete_where_self p [] = refl
  find_where-delete_where_self p (x ∷ xs) = ground (arith, find_where-delete_where_self p xs)

-- What follows for the rows one by one follows for the tables.
module _ {ℓ} {A : Type ℓ} where
  pub any_imp :
      (p q : A → Bool) (xs : List A)
      → ((x : A) → p x ≡ true → q x ≡ true)
      → any p xs ≡ true
      → any q xs ≡ true
  any_imp p q [] h k = k
  any_imp p q (x ∷ xs) h k = ground (arith, h x, any_imp p q xs h)

  pub any-append : (p : A → Bool) (xs ys : List A) → any p (xs ++ ys) ≡ (any p xs || any p ys)
  any-append p [] ys = refl
  any-append p (x ∷ xs) ys = ground (arith, any-append p xs ys)

  pub any_last : (p : A → Bool) (xs : List A) (x : A) → p x ≡ true → any p (xs ++ x ∷ []) ≡ true
  any_last p [] x h = ground (arith, h)
  any_last p (y ∷ xs) x h = ground (arith, any_last p xs x h)

  pub any-filter_where :
      (p q : A → Bool) (xs : List A) → any p (filter_where q xs) ≡ any (λ x. p x && q x) xs
  any-filter_where p q [] = refl
  any-filter_where p q (x ∷ xs) = ground (arith, any-filter_where p q xs)

  pub any-delete_where :
      (p q : A → Bool) (xs : List A)
      → ((x : A) → p x ≡ true → q x ≡ false)
      → any p xs ≡ true
      → any p (delete_where q xs) ≡ true
  any-delete_where p q [] h k = k
  any-delete_where p q (x ∷ xs) h k = ground (arith, h x, any-delete_where p q xs h)

  pub any_of_find :
      (p : A → Bool) (xs : List A) (a : A) → find_where p xs ≡ some a → any p xs ≡ true
  any_of_find p [] a h = ground arith
  any_of_find p (x ∷ xs) a h = ground (arith, any_of_find p xs a)

  -- A row that was found and has a further property shows that some row has both.
  pub any_found :
      (p q : A → Bool) (xs : List A) (a : A)
      → find_where p xs ≡ some a
      → q a ≡ true
      → any (λ x. p x && q x) xs ≡ true
  any_found p q [] a h k = ground arith
  any_found p q (x ∷ xs) a h k = ground (arith, k, h, any_found p q xs a)

  -- An update that keeps the searched columns finds the row it found before.
  pub find_where-update_where :
      (p q : A → Bool) (f : A → A) (xs : List A) (a : A)
      → ((x : A) → p (f x) ≡ p x)
      → find_where p xs ≡ some a
      → find_where p (update_where q f xs) ≡ some (if q a then f a else a)
  find_where-update_where p q f [] a h e = ground arith
  find_where-update_where p q f (x ∷ xs) a h e =
      ground (arith, h x, find_where-update_where p q f xs a h)

  -- Rows under `p` that are replaced by one row under `p` are found as that row; rows found under a
  -- condition that excludes `p` are found as before.
  pub find_replaced :
      (p : A → Bool) (xs : List A) (a row : A)
      → find_where p xs ≡ some a
      → p row ≡ true
      → find_where p (update_where p (λ _. row) xs) ≡ some row
  find_replaced p [] a row h k = ground (arith, h)
  find_replaced p (x ∷ xs) a row h k = ground (arith, k, find_replaced p xs a row)

  pub find_beside :
      (p q : A → Bool) (xs : List A) (row : A)
      → ((x : A) → p x ≡ true → q x ≡ false)
      → p row ≡ true
      → find_where q (update_where p (λ _. row) xs) ≡ find_where q xs
  find_beside p q [] row h k = refl
  find_beside p q (x ∷ xs) row h k = ground (arith, k, h x, h row, find_beside p q xs row h k)

  pub count_where_imp :
      (p q : A → Bool) (xs : List A)
      → ((x : A) → p x ≡ true → q x ≡ true)
      → count_where p xs ≤ count_where q xs
  count_where_imp p q [] h = omega arith
  count_where_imp p q (x ∷ xs) h = ground (arith, h x, count_where_imp p q xs h)

  pub count_where-update_where :
      (p q : A → Bool) (f : A → A) (xs : List A)
      → count_where p (update_where q f xs) ≡ count_where (λ x. p (if q x then f x else x)) xs
  count_where-update_where p q f [] = refl
  count_where-update_where p q f (x ∷ xs) = ground (arith, count_where-update_where p q f xs)

  pub count_where_none : (p : A → Bool) (xs : List A) → any p xs ≡ false → count_where p xs ≡ 0
  count_where_none p [] h = refl
  count_where_none p (x ∷ xs) h = ground (arith, count_where_none p xs)

-- Every row satisfies `P`.
abbrev pub All {ℓ κ} : {A : Type ℓ} → (A → Type κ) → List A → Type κ
All P [] = Unit
All P (x ∷ xs) = P x × All P xs

pick {ℓ κ} :
    {A : Type ℓ} (P : A → Type κ) (x a : A) (rest : Option A) (b : Bool)
    → P x
    → (rest ≡ some a → P a)
    → (if b then some x else rest) ≡ some a
    → P a
pick P x a rest true h later e = subst P (some-injective x a e) h
pick P x a rest false h later e = later e

module _ {ℓ κ} {A : Type ℓ} (P : A → Type κ) where
  pub All-find_where :
      (p : A → Bool) (xs : List A) (a : A) → All P xs → find_where p xs ≡ some a → P a
  All-find_where p [] a h e = cc
  All-find_where p (x ∷ xs) a h e =
      pick P x a (find_where p xs) (p x) h.0 (All-find_where p xs a h.1) e

  pub All-update_where :
      (p : A → Bool) (f : A → A) (xs : List A)
      → ((a : A) → P a → P (f a))
      → All P xs
      → All P (update_where p f xs)
  All-update_where p f [] step h = tt
  All-update_where p f (x ∷ xs) step h = (
    elim (p x) as (λ b. P (if b then f x else x)) [ true ↦ step x h.0 | false ↦ h.0 ],
    All-update_where p f xs step h.1,
  )

  pub All-append_row : (xs : List A) (a : A) → All P xs → P a → All P (xs ++ a ∷ [])
  All-append_row [] a h k = (k, tt)
  All-append_row (x ∷ xs) a h k = (h.0, All-append_row xs a h.1 k)
