-- ===== src/Access/Owners.antt =====
-- The active owners of an organization: what the rows of the tables have to keep for
-- `count_active_owners` of services/api/app/modules/members/repository.py to stay above zero.
use serviq.Common.{
  ℕ, ◌+◌, ◌≤◌, ◌≡◌, refl, some, Bool, true, false, not, ◌&&◌, List, [], ◌∷◌, arith, ◌==◌,
  count_where, find_where, update_where, any, any_imp,
}
use serviq.Access.Rows.{Directory, Membership, MembershipRole, Role}
use serviq.Access.Tenancy.{maps, has_role}
use serviq.Access.Invitations.{mem, ids_of}

-- The primary key of `memberships`.
abbrev pub has_id : ℕ → Membership → Bool
has_id x m = m.id == x

unfoldable pub IsKeyed : Directory → Type 0
IsKeyed d = (x : ℕ) → count_where (has_id x) d.memberships ≤ 1

module _ (p : Membership → Bool) (x : ℕ) where
  -- The rows under `p` with another id.
  abbrev pub other : Membership → Bool
  other m = p m && not (has_id x m)

  pub count_but_one :
      (ms : List Membership) → count_where p ms ≤ count_where other ms + count_where (has_id x) ms
  count_but_one [] = omega arith
  count_but_one (m ∷ ms) = ground (arith, count_but_one ms)

  pub others_survive :
      (p' : Membership → Bool) (f : Membership → Membership) (ms : List Membership)
      → ((m : Membership) → has_id x m ≡ false → p m ≡ true → p' m ≡ true)
      → count_where other ms ≤ count_where p' (update_where (has_id x) f ms)
  others_survive p' f [] h = omega arith
  others_survive p' f (m ∷ ms) h = ground (arith, h m, others_survive p' f ms h)

  absent :
      (ms : List Membership)
      → count_where (has_id x) ms ≤ 0
      → count_where p ms ≡ count_where other ms
  absent [] h = refl
  absent (m ∷ ms) h = ground (arith, absent ms)

  -- A row outside `p` that is the only one with its id leaves all of `p` among the others.
  pub count_others :
      (q : Membership → Bool) (target : Membership) (ms : List Membership)
      → ((m : Membership) → q m ≡ true → has_id x m ≡ true)
      → count_where (has_id x) ms ≤ 1
      → find_where q ms ≡ some target
      → p target ≡ false
      → count_where p ms ≡ count_where other ms
  count_others q target [] k h e n = refl
  count_others q target (m ∷ ms) k h e n =
      ground (arith, k m, absent ms, count_others q target ms k, present q target ms k)
    where
      present :
          (q : Membership → Bool) (a : Membership) (ms : List Membership)
          → ((m : Membership) → q m ≡ true → has_id x m ≡ true)
          → find_where q ms ≡ some a
          → 1 ≤ count_where (has_id x) ms
      present q a [] k e = ground arith
      present q a (m ∷ ms) k e = ground (arith, k m, present q a ms k)

  -- The row that was found counts after the update, if its new version does.
  pub found_survives :
      (q p' : Membership → Bool) (f : Membership → Membership) (target : Membership)
      (ms : List Membership)
      → ((m : Membership) → q m ≡ true → has_id x m ≡ true)
      → find_where q ms ≡ some target
      → p' (f target) ≡ true
      → 1 ≤ count_where p' (update_where (has_id x) f ms)
  found_survives q p' f target [] k e h = ground arith
  found_survives q p' f target (m ∷ ms) k e h =
      ground (arith, k m, found_survives q p' f target ms k)

-- A role stays with a membership when its mapping rows do.
pub has_role_imp :
    (keeps : Role → Bool) (m : ℕ) (d d' : Directory)
    → d'.roles ≡ d.roles
    → ((r : ℕ)
        → any (maps m r) d.membership_roles ≡ true
        → any (maps m r) d'.membership_roles ≡ true)
    → has_role keeps m d ≡ true
    → has_role keeps m d' ≡ true
has_role_imp keeps m d d' e h k = rw e (
    any_imp _ (λ r. keeps r && any (maps m r.id) d'.membership_roles) d.roles
      (λ r b. ground (arith, h r.id, b)) k)

-- The mapping rows that `add_membership_roles` appends.
abbrev pub mappings : ℕ → List ℕ → List MembershipRole
mappings m [] = []
mappings m (r ∷ rs) = record { membership_id = m; role_id = r } ∷ mappings m rs

pub any-mappings : (m r : ℕ) (rs : List ℕ) → any (maps m r) (mappings m rs) ≡ mem r rs
any-mappings m r [] = refl
any-mappings m r (s ∷ rs) = ground (arith, any-mappings m r rs)

-- Every role of a list has its id among the ids of the list.
pub any_with_id :
    (p : Role → Bool) (ids : List ℕ) (rs : List Role)
    → ((r : ℕ) → mem r (ids_of rs) ≡ true → mem r ids ≡ true)
    → any p rs ≡ true
    → any (λ r. p r && mem r.id ids) rs ≡ true
any_with_id p ids [] h k = k
any_with_id p ids (r ∷ rs) h k =
    ground (arith, h r.id, any_with_id p ids rs (λ s b. h s (ground (arith, b))))
