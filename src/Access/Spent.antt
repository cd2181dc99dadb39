-- ===== src/Access/Spent.antt =====
-- A token of services/api/app/modules/invitations whose invitation is no longer pending stays so
-- under every transaction of services/api/app/modules.
use serviq.Common.{
  ℕ, String, ◌≡◌, refl, inl, inr, ◌==◌, Option, none, some, Bool, false, not, List, [], ◌∷◌, ◌++◌,
  ◌&&◌, leb, arith, any, find_where, find_where-update_where, Bool-cases,
}
use serviq.Common.Tx.Preserves.{
  Preserves, Preserves-pure, Preserves-read, Preserves-raise, Preserves-raise_if, Preserves-bind,
  Preserves-modify, Preserves-if, Preserves-transaction,
}
use serviq.Access.Rows.{
  Directory, Membership, MembershipStatus, Role, OrganizationInvitation, is_pending, pure, modify,
  ◌>>◌, membership_role_invalid, membership_access_not_found, last_active_owner_conflict,
}
use serviq.Access.Tenancy.{is_organization}
use serviq.Access.Reads.{may_manage-Preserves}
use serviq.Access.Invitations.{
  has_digest, accepted_row, revoked_row, set_invitation, find_assignable_roles, ids_of, same_set,
}
use serviq.Access.Members.{
  MemberUpdateRequest, next_roles, next_status, removes_active_owner, guard_last_owner,
  add_membership_roles, clear_roles, replace_membership_roles, write_roles, write_status,
  same_status, set_status, with_status, list_membership_roles, find_tenant_membership,
  update_target, update_found, update_body, update_member, count_active_owners,
}
use serviq.Access.Keeping.{Frame, add_membership_role-Preserves}
use serviq.Access.MemberUpdate.{view-Preserves}
use serviq.Access.Operations.{
  create_invitation-Preserves, accept_invitation-Preserves, revoke_invitation-Preserves,
  create_organization-Preserves, update_organization-Preserves, upsert_user-Preserves,
}
use serviq.Access.Steps.{
  Step, Steps, done, step, creates_organization, updates_organization, updates_member,
  creates_invitation, accepts_invitation, revokes_invitation, signs_in,
}

-- The invitation of a token's digest is there and is not pending.
abbrev pub IsSpent : String → Directory → Type 0
IsSpent h d =
    (i : OrganizationInvitation) × (find_where (has_digest h) d.invitations ≡ some i)
    × (is_pending i.status ≡ false)

find_kept :
    (p : OrganizationInvitation → Bool) (xs : List OrganizationInvitation)
    (i j : OrganizationInvitation)
    → find_where p xs ≡ some i
    → find_where p (xs ++ j ∷ []) ≡ some i
find_kept p [] i j h = absurd (cc)
find_kept p (x ∷ xs) i j h = ground (arith, find_kept p xs i j)

module _ (h : String) where
  -- A row that is accepted or revoked is not pending either.
  set-IsSpent :
      (id : ℕ) (f : OrganizationInvitation → OrganizationInvitation) (d : Directory)
      → ((x : OrganizationInvitation) → has_digest h (f x) ≡ has_digest h x)
      → ((x : OrganizationInvitation) → is_pending (f x).status ≡ false)
      → IsSpent h d
      → IsSpent h (set_invitation id f d)
  set-IsSpent id f d same ends (i, found, over) =
      let e =
        find_where-update_where (has_digest h) (λ x. x.id == id) f d.invitations i same found in
      elim (Bool-cases (i.id == id)) [
        | inl own ↦ (f i, ground (arith, e, own), ends i)
        | inr other ↦ (i, ground (arith, e, other), over)
      ]

  IsSpent-Frame : Frame (IsSpent h)
  IsSpent-Frame = record {
    row = λ m d fresh p. p;
    mapping = λ m r d p. p;
    activation = λ x now d p. p;
    invitation = λ j d p. (p.0, find_kept (has_digest h) d.invitations p.0 j p.1, p.2);
    invited_role = λ i r d p. p;
    acceptance = λ i u now d p. set-IsSpent i (accepted_row u now) d (λ x. refl) (λ x. refl) p;
    revocation = λ i now d p. set-IsSpent i (revoked_row now) d (λ x. refl) (λ x. refl) p;
    organization = λ o d p. p;
    settings = λ o request now d p. p;
    user = λ u d p. p;
    profile = λ u email name now d p. p;
  }

-- `update_member` writes rows of memberships and of their roles.
module _ {P : Directory → Type 0} (F : Frame P)
    (cleared : (m : ℕ) (d : Directory) → P d → P (clear_roles m d))
    (updated : (m : ℕ) (s : MembershipStatus) (now : ℕ) (d : Directory)
      → P d
      → P (set_status m s now d)) where
  next_roles-Preserves :
      (o : ℕ) (current : List Role) (request : Option (List ℕ))
      → Preserves P (next_roles o current request)
  next_roles-Preserves o current none = Preserves-pure current
  next_roles-Preserves o current (some ids) =
      Preserves-bind _ _ (Preserves-read (find_assignable_roles o ids)) (λ roles.
        Preserves-bind _ _
          (Preserves-raise_if (not (same_set (ids_of roles) ids)) membership_role_invalid)
          (λ _. Preserves-pure roles))

  guard-Preserves : (o : ℕ) (removes : Bool) → Preserves P (guard_last_owner o removes)
  unfolding guard_last_owner
  guard-Preserves o removes =
      Preserves-bind _ _ (Preserves-read (count_active_owners o))
        (λ n. Preserves-raise_if (removes && leb n 1) last_active_owner_conflict)

  add_roles-Preserves : (m : ℕ) (rs : List ℕ) → Preserves P (add_membership_roles m rs)
  add_roles-Preserves m [] = Preserves-pure _
  add_roles-Preserves m (r ∷ rs) =
      Preserves-bind _ _ (add_membership_role-Preserves F.row F.mapping F.activation m r)
        (λ _. add_roles-Preserves m rs)

  write_roles-Preserves :
      (m : ℕ) (next : List ℕ) (request : Option (List ℕ)) → Preserves P (write_roles m next request)
  unfolding replace_membership_roles
  write_roles-Preserves m next none = Preserves-pure _
  write_roles-Preserves m next (some ids) =
      Preserves-bind _ _ (Preserves-modify (clear_roles m) (cleared m))
        (λ _. add_roles-Preserves m next)

  write_status-Preserves :
      (m : Membership) (now : ℕ) (request : Option MembershipStatus)
      → Preserves P (write_status m now request)
  write_status-Preserves m now none = Preserves-pure m
  write_status-Preserves m now (some s) =
      Preserves-if (same_status s m.status) (pure m)
        (modify (set_status m.id s now) >> pure (with_status s now m)) (λ _. Preserves-pure m)
        (λ _.
          Preserves-bind _ _ (Preserves-modify (set_status m.id s now) (updated m.id s now))
            (λ _. Preserves-pure (with_status s now m)))

  target-Preserves :
      (o now : ℕ) (request : MemberUpdateRequest) (target : Membership)
      → Preserves P (update_target o now request target)
  unfolding update_target
  target-Preserves o now request target =
      Preserves-bind _ _ (Preserves-read (list_membership_roles target.id)) (λ current.
        Preserves-bind _ _ (next_roles-Preserves o current request.role_ids) (λ next.
          Preserves-bind _ _
            (guard-Preserves o
              (removes_active_owner target (next_status target request.status) current next))
            (λ _.
              Preserves-bind _ _ (write_roles-Preserves target.id (ids_of next) request.role_ids)
                (λ _.
                  Preserves-bind _ _ (write_status-Preserves target now request.status)
                    view-Preserves))))

  member-Preserves :
      (u o id : ℕ) (request : MemberUpdateRequest) (now : ℕ)
      → Preserves P (update_body u o id request now)
  unfolding update_body
  member-Preserves u o id request now =
      Preserves-bind _ _ (Preserves-read (λ d. any (is_organization o) d.organizations)) (λ locked.
        Preserves-bind _ _ (Preserves-raise_if (not locked) membership_access_not_found) (λ _.
          Preserves-bind _ _ (may_manage-Preserves u o)
            (λ _. Preserves-bind _ _ (Preserves-read (find_tenant_membership o id)) found)))
    where
      found : (m : Option Membership) → Preserves P (update_found o now request m)
      found none = Preserves-raise _
      found (some m) = target-Preserves o now request m

  update_member-Preserves :
      (u o id : ℕ) (request : MemberUpdateRequest) (now : ℕ) (d : Directory)
      → P d
      → P (update_member u o id request now d).1
  unfolding update_member
  update_member-Preserves u o id request now d =
      Preserves-transaction _ (member-Preserves u o id request now) d

module _ {digest : String → String} {space : ℕ → Bool} {casefold : List ℕ → List ℕ}
    (h : String) where
  Step-IsSpent : (d d' : Directory) → Step digest space casefold d d' → IsSpent h d → IsSpent h d'
  Step-IsSpent _ _ (creates_organization id mid u request now d) p =
      create_organization-Preserves (IsSpent-Frame h) id mid u request now d p
  Step-IsSpent _ _ (updates_organization u o request now d) p =
      update_organization-Preserves (IsSpent-Frame h) u o request now d p
  Step-IsSpent _ _ (updates_member u o id now request d) p =
      update_member-Preserves (IsSpent-Frame h) (λ m d p. p) (λ m s now d p. p) u o id request now d
        p
  Step-IsSpent _ _ (creates_invitation id u o request token now d) p =
      create_invitation-Preserves (IsSpent-Frame h) digest id u o request token now d p
  Step-IsSpent _ _ (accepts_invitation id u identity token now d) p =
      accept_invitation-Preserves (IsSpent-Frame h) digest space casefold id u identity token now d
        p
  Step-IsSpent _ _ (revokes_invitation u o i now d) p =
      revoke_invitation-Preserves (IsSpent-Frame h) u o i now d p
  Step-IsSpent _ _ (signs_in id identity now d) p =
      upsert_user-Preserves (IsSpent-Frame h) id identity now d p

  pub Steps-IsSpent :
      (d d' : Directory) → Steps digest space casefold d d' → IsSpent h d → IsSpent h d'
  Steps-IsSpent _ _ (done d) p = p
  Steps-IsSpent _ _ (step d d1 d2 one rest) p = Steps-IsSpent d1 d2 rest (Step-IsSpent d d1 one p)
