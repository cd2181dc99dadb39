-- ===== src/Access/Email.antt =====
-- `normalize_invitation_email` of services/api/app/modules/invitations/security.py, on code
-- points. Python's `str.isspace` of a character and `str.casefold` are parameters.
use serviq.Common.{
  ℕ, Option, none, some, Bool, true, false, not, ◌&&◌, ◌||◌, List, [], ◌∷◌, leb, ◌==◌,
  if◌then◌else◌, length, count_where, any, strip,
}

abbrev pub text_eq : List ℕ → List ℕ → Bool
text_eq [] [] = true
text_eq [] (y ∷ ys) = false
text_eq (x ∷ xs) [] = false
text_eq (x ∷ xs) (y ∷ ys) = x == y && text_eq xs ys

abbrev at_sign : ℕ
at_sign = 64

abbrev full_stop : ℕ
full_stop = 46

abbrev pub is_empty : List ℕ → Bool
is_empty [] = true
is_empty (_ ∷ _) = false

-- The two parts of `split("@", 1)` of a text with an @.
abbrev pub local_part : List ℕ → List ℕ
local_part [] = []
local_part (c ∷ cs) = let rest = local_part cs in if c == at_sign then [] else c ∷ rest

abbrev pub domain_part : List ℕ → List ℕ
domain_part [] = []
domain_part (c ∷ cs) = let rest = domain_part cs in if c == at_sign then cs else rest

abbrev starts_with_stop : List ℕ → Bool
starts_with_stop [] = false
starts_with_stop (c ∷ cs) = c == full_stop

abbrev ends_with_stop : List ℕ → Bool
ends_with_stop [] = false
ends_with_stop (c ∷ []) = c == full_stop
ends_with_stop (c ∷ d ∷ cs) = ends_with_stop (d ∷ cs)

-- `".." in domain`
abbrev has_double_stop : List ℕ → Bool
has_double_stop [] = false
has_double_stop (c ∷ cs) = (c == full_stop && starts_with_stop cs) || has_double_stop cs

-- Which check the normalized text fails, if any.
unfoldable pub is_invalid_email : (ℕ → Bool) → List ℕ → Bool
is_invalid_email space cs =
    not (leb 3 (length cs) && leb (length cs) 320)
    || any space cs
    || not (count_where (λ c. c == at_sign) cs == 1)
    || is_empty (local_part cs)
    || is_empty (domain_part cs)
    || starts_with_stop (domain_part cs)
    || ends_with_stop (domain_part cs)
    || has_double_stop (domain_part cs)

-- None stands for InvitationEmailError.
unfoldable pub normalize_invitation_email :
    (ℕ → Bool) → (List ℕ → List ℕ) → List ℕ → Option (List ℕ)
normalize_invitation_email space casefold value =
    let normalized = casefold (strip space value) in
    if is_invalid_email space normalized then none else some normalized
