-- ===== src/Access/Steps.antt =====
-- The transactions of services/api/app/modules/{organizations,members,invitations,workforce}
-- one after another, in any order and by any callers.
use serviq.Common.{
  ℕ, String, ◌≤◌, ◌≡◌, refl, sym, subst, ap, inl, inr, ◌∙◌, Option, none, some, Bool, true, false,
  List, [], ◌∷◌, arith, any, any-append, any_found, find_where, count_where-append,
}
use serviq.Access.Rows.{
  Directory, Membership, Role, Organization, Result, ok, bind_inv, raise_if_inv, checked_inv,
  on_error_inv, transaction_cases, ◌>>=◌, ◌>>◌, pure, modify, on_error, integrity_error,
}
use serviq.Access.Tenancy.{
  add_membership, add_membership_role, refuses_membership, refuses_mapping, maps,
}
use serviq.Access.Invitations.{
  InvitationCreateRequest, VerifiedWorkforceIdentity, create_invitation, accept_invitation,
  revoke_invitation,
}
use serviq.Access.Organizations.{
  OrganizationCreateRequest, OrganizationUpdateRequest, OrganizationView, find_global_system_role,
  create_with_role, create_body, create_organization, update_organization, add_organization,
  add_active_membership, new_organization, new_member, with_organization, as_slug_conflict, to_view,
  refuses_organization,
}
use serviq.Access.Members.{
  MemberUpdateRequest, update_member, count_active_owners, is_active_owner, is_owner_role,
}
use serviq.Access.Workforce.{upsert_verified_workforce_user}
use serviq.Access.Owners.{IsKeyed}
use serviq.Access.Keeping.{HasOwner, HasOwner-Frame, with_membership, with_mapping, add_row-IsKeyed}
use serviq.Access.Operations.{
  create_invitation-Preserves, accept_invitation-Preserves, revoke_invitation-Preserves,
  create_organization-Preserves, update_organization-Preserves, upsert_user-Preserves,
}
use serviq.Access.MemberUpdate.{update_member-HasOwner}

-- One transaction, with the arguments of its caller and the keys and times it was given.
pub data Step (digest : String → String) (space : ℕ → Bool) (casefold : List ℕ → List ℕ)
    : Directory → Directory → Type 0 where
  creates_organization :
      (id mid u : ℕ) (request : OrganizationCreateRequest) (now : ℕ) (d : Directory)
      → Step digest space casefold d (create_organization id mid u request now d).1
  updates_organization :
      (u o : ℕ) (request : OrganizationUpdateRequest) (now : ℕ) (d : Directory)
      → Step digest space casefold d (update_organization u o request now d).1
  updates_member :
      (u o id now : ℕ) (request : MemberUpdateRequest) (d : Directory)
      → Step digest space casefold d (update_member u o id request now d).1
  creates_invitation :
      (id u o : ℕ) (request : InvitationCreateRequest) (token : String) (now : ℕ) (d : Directory)
      → Step digest space casefold d (create_invitation digest id u o request token now d).1
  accepts_invitation :
      (id u : ℕ) (identity : VerifiedWorkforceIdentity) (token : String) (now : ℕ) (d : Directory)
      → Step digest space casefold d
          (accept_invitation digest space casefold id u identity token now d).1
  revokes_invitation :
      (u o i now : ℕ) (d : Directory)
      → Step digest space casefold d (revoke_invitation u o i now d).1
  signs_in :
      (id : ℕ) (identity : VerifiedWorkforceIdentity) (now : ℕ) (d : Directory)
      → Step digest space casefold d (upsert_verified_workforce_user id identity now d).1

pub data Steps (digest : String → String) (space : ℕ → Bool) (casefold : List ℕ → List ℕ)
    : Directory → Directory → Type 0 where
  done : (d : Directory) → Steps digest space casefold d d
  step :
      (d d1 d2 : Directory)
      → Step digest space casefold d d1
      → Steps digest space casefold d1 d2
      → Steps digest space casefold d d2

module _ {digest : String → String} {space : ℕ → Bool} {casefold : List ℕ → List ℕ} (t : ℕ) where
  Step-HasOwner :
      (d d' : Directory) → Step digest space casefold d d' → HasOwner t d → HasOwner t d'
  Step-HasOwner _ _ (creates_organization id mid u request now d) p =
      create_organization-Preserves (HasOwner-Frame t) id mid u request now d p
  Step-HasOwner _ _ (updates_organization u o request now d) p =
      update_organization-Preserves (HasOwner-Frame t) u o request now d p
  Step-HasOwner _ _ (updates_member u o id now request d) p =
      update_member-HasOwner t u o id now request d p
  Step-HasOwner _ _ (creates_invitation id u o request token now d) p =
      create_invitation-Preserves (HasOwner-Frame t) digest id u o request token now d p
  Step-HasOwner _ _ (accepts_invitation id u identity token now d) p =
      accept_invitation-Preserves (HasOwner-Frame t) digest space casefold id u identity token now d
        p
  Step-HasOwner _ _ (revokes_invitation u o i now d) p =
      revoke_invitation-Preserves (HasOwner-Frame t) u o i now d p
  Step-HasOwner _ _ (signs_in id identity now d) p =
      upsert_user-Preserves (HasOwner-Frame t) id identity now d p

  Steps-HasOwner :
      (d d' : Directory) → Steps digest space casefold d d' → HasOwner t d → HasOwner t d'
  Steps-HasOwner _ _ (done d) p = p
  Steps-HasOwner _ _ (step d d1 d2 one rest) p =
      Steps-HasOwner d1 d2 rest (Step-HasOwner d d1 one p)

-- The creator of a new organization is an active owner of it.
new_owner :
    (o mid u now : ℕ) (r : Role) (d : Directory)
    → find_where is_owner_role d.roles ≡ some r
    → 1 ≤ count_active_owners o (with_mapping mid r.id (with_membership (new_member mid o u now) d))
unfolding count_active_owners
new_owner o mid u now r d h =
    let after : Directory = with_mapping mid r.id (with_membership (new_member mid o u now) d) in
    let mapped : any (maps mid r.id) after.membership_roles ≡ true = ground (
      arith,
      any-append (maps mid r.id) d.membership_roles
          (record { membership_id = mid; role_id = r.id } ∷ []),
    ) in
    ground (
      arith,
      any_found is_owner_role (λ x. any (maps mid x.id) after.membership_roles) d.roles r h mapped,
      count_where-append (is_active_owner o after) d.memberships (new_member mid o u now ∷ []),
    )

add_organization_inv :
    (id : ℕ) (slug name : String) (now : ℕ) (d d' : Directory) (o : Organization)
    → on_error (add_organization id slug name now) as_slug_conflict d ≡ ok (o, d')
    → (new_organization id slug name now ≡ o)
      × (with_organization (new_organization id slug name now) d ≡ d')
unfolding add_organization
add_organization_inv id slug name now d d' o h =
    elim (on_error_inv (add_organization id slug name now) as_slug_conflict d (o, d') h) [
      | inl ran ↦
          let (_, wrote) =
            raise_if_inv (refuses_organization (new_organization id slug name now) d)
              integrity_error
              (modify (with_organization (new_organization id slug name now))
                >> pure (new_organization id slug name now))
              d (o, d') ran in
          (cc, cc)
      | inr (e, _, raised) ↦ absurd (cc)
    ]

add_member_inv :
    (mid t u now : ℕ) (d d' : Directory) (m : Membership)
    → add_active_membership mid t u now d ≡ ok (m, d')
    → (refuses_membership (new_member mid t u now) d ≡ false)
      × (new_member mid t u now ≡ m)
      × (with_membership (new_member mid t u now) d ≡ d')
unfolding add_active_membership add_membership
add_member_inv mid t u now d d' m h =
    let (a, d1, added, rest) =
      bind_inv (add_membership (new_member mid t u now)) (λ _. pure (new_member mid t u now)) d
        (m, d') h in
    let (fresh, wrote) =
      checked_inv (refuses_membership (new_member mid t u now)) integrity_error
        (with_membership (new_member mid t u now)) d d1 a added in
    (fresh, cc, wrote ∙ cc)

pure_inv :
    (o : Organization) (d d' : Directory) (view : OrganizationView)
    → ◌≡◌ {A = Result (OrganizationView × Directory)} (ok (to_view o, d)) (ok (view, d'))
    → (o.id ≡ view.id) × (d ≡ d')
unfolding to_view
pure_inv o d d' view h = (ap (λ v. v.id) (fst_eq h), cc)
  where
    fst_eq :
        ◌≡◌ {A = Result (OrganizationView × Directory)} (ok (to_view o, d)) (ok (view, d'))
        → to_view o ≡ view
    fst_eq h = cc

created-HasOwner :
    (id mid u : ℕ) (request : OrganizationCreateRequest) (now : ℕ) (d d' : Directory)
    (view : OrganizationView)
    → IsKeyed d
    → create_body id mid u request now d ≡ ok (view, d')
    → HasOwner view.id d'
unfolding create_body find_global_system_role add_membership_role HasOwner IsKeyed
created-HasOwner id mid u request now d d' view keyed h =
    found (find_where is_owner_role d.roles) refl h
  where
    found :
        (r : Option Role)
        → find_where is_owner_role d.roles ≡ r
        → create_with_role id mid u request now r d ≡ ok (view, d')
        → HasOwner view.id d'
    found none e k = absurd (cc)
    found (some r) e k =
        let (o, d1, org, h1) =
          bind_inv
            (on_error (add_organization id request.slug request.display_name now) as_slug_conflict)
            (λ o. add_active_membership mid o.id u now >>= λ m.
              add_membership_role m.id r.id >> pure (to_view o))
            d (view, d') k in
        let (_, d1_eq) = add_organization_inv id request.slug request.display_name now d d1 o org in
        let (m, d2, joined, h2) =
          bind_inv (add_active_membership mid o.id u now)
            (λ m. add_membership_role m.id r.id >> pure (to_view o)) d1 (view, d') h1 in
        let (fresh, m_eq, d2_eq) = add_member_inv mid o.id u now d1 d2 m joined in
        let (a, d3, mapped, h3) =
          bind_inv (add_membership_role m.id r.id) (λ _. pure (to_view o)) d2 (view, d') h2 in
        let (_, d3_eq) =
          checked_inv (refuses_mapping m.id r.id) integrity_error (with_mapping m.id r.id) d2 d3 a
            mapped in
        let (view_eq, d'_eq) = pure_inv o d3 d' view h3 in
        let final : with_mapping mid r.id (with_membership (new_member mid o.id u now) d1) ≡ d' =
          ap (with_mapping mid r.id) d2_eq
          ∙ ap (λ n. with_mapping n.id r.id d2) m_eq
          ∙ d3_eq
          ∙ d'_eq in
        let keyed1 : IsKeyed d1 = subst IsKeyed d1_eq keyed in
        let role1 : find_where is_owner_role d1.roles ≡ some r =
          ap (λ db. find_where is_owner_role db.roles) (sym d1_eq) ∙ e in
        let owned : HasOwner o.id
            (with_mapping mid r.id (with_membership (new_member mid o.id u now) d1)) =
          (
            add_row-IsKeyed (new_member mid o.id u now) d1 fresh keyed1,
            new_owner o.id mid u now r d1 role1,
          ) in
        subst (λ t. HasOwner t d') view_eq (subst (HasOwner o.id) final owned)

-- An organization that `create_organization` made has an active owner ever after: whatever
-- transactions of members, invitations, organizations and sign-ins follow, in any order and by
-- any callers, `count_active_owners` finds one. The ids of the memberships are distinct before.
pub created_organization-HasOwner :
    (digest : String → String) (space : ℕ → Bool) (casefold : List ℕ → List ℕ) (id mid u : ℕ)
    (request : OrganizationCreateRequest) (now : ℕ) (d d1 d2 : Directory) (view : OrganizationView)
    → IsKeyed d
    → create_organization id mid u request now d ≡ (ok view, d1)
    → Steps digest space casefold d1 d2
    → 1 ≤ count_active_owners view.id d2
unfolding create_organization HasOwner
created_organization-HasOwner digest space casefold id mid u request now d d1 d2 view keyed h
      later =
    elim (transaction_cases (create_body id mid u request now) d) [
      | inl (e, failed, undone) ↦ absurd (cc)
      | inr (v, d', ran, committed) ↦
          let same : v ≡ view = cc in
          let end_eq : d' ≡ d1 = cc in
          (Steps-HasOwner view.id d1 d2 later
            (created-HasOwner id mid u request now d d1 view keyed (cc))).1
    ]
