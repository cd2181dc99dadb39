-- ===== src/Access/Keeping.antt =====
-- Every statement of services/api/app/modules on memberships and their roles keeps the primary
-- key of `memberships` and an organization's last active owner.
use serviq.Common.{
  ℕ, ◌≤◌, ◌≡◌, refl, Bool-cases, ==_iff, inl, inr, Option, none, some, Bool, true, false, List, [],
  ◌∷◌, ◌++◌, arith, ◌==◌, if◌then◌else◌, count_where, update_where, any-append, count_where_imp,
  count_where-append, count_where-update_where, count_where_none,
}
use serviq.Common.Tx.Preserves.{
  Preserves, Preserves-pure, Preserves-if, Preserves-read, Preserves-bind, Preserves-modify,
}
use serviq.Access.Rows.{
  Directory, Membership, Role, Organization, OrganizationInvitation, User, ◌>>◌, modify, pure,
  checked_inv, is_active_status, integrity_error,
}
use serviq.Access.Tenancy.{
  maps, has_role, add_membership, refuses_membership, refuses_mapping, add_membership_role,
  add_invited_membership, activated, find_or_add, add_missing_roles, list_membership_role_ids,
  activate_membership_from_invitation,
}
use serviq.Access.Invitations.{
  with_invitation, with_invited_role, set_invitation, accepted_row, revoked_row,
}
use serviq.Access.Organizations.{
  OrganizationUpdateRequest, with_organization, set_organization, with_settings,
}
use serviq.Access.Workforce.{with_user, set_user, with_profile}
use serviq.Access.Members.{count_active_owners, is_active_owner, is_owner_role}
use serviq.Access.Owners.{has_id, IsKeyed, has_role_imp}

-- The tables are keyed and organization `t` has an active owner.
unfoldable pub HasOwner : ℕ → Directory → Type 0
HasOwner t d = IsKeyed d × (1 ≤ count_active_owners t d)

abbrev pub with_membership : Membership → Directory → Directory
with_membership m d = record d { memberships = d.memberships ++ m ∷ [] }

abbrev pub with_mapping : ℕ → ℕ → Directory → Directory
with_mapping m r d = record d {
  membership_roles = d.membership_roles ++ record { membership_id = m; role_id = r } ∷ [];
}

abbrev pub with_update : ℕ → (Membership → Membership) → Directory → Directory
with_update x f d = record d { memberships = update_where (has_id x) f d.memberships }

-- What every statement of these modules keeps of the tables.
pub record Frame (P : Directory → Type 0) : Type 0 where
  pub row :
      (m : Membership) (d : Directory)
      → refuses_membership m d ≡ false
      → P d
      → P (with_membership m d)
  pub mapping : (m r : ℕ) (d : Directory) → P d → P (with_mapping m r d)
  pub activation : (x now : ℕ) (d : Directory) → P d → P (with_update x (activated now) d)
  pub invitation : (i : OrganizationInvitation) (d : Directory) → P d → P (with_invitation i d)
  pub invited_role : (i r : ℕ) (d : Directory) → P d → P (with_invited_role i r d)
  pub acceptance : (i u now : ℕ) (d : Directory) → P d → P (set_invitation i (accepted_row u now) d)
  pub revocation : (i now : ℕ) (d : Directory) → P d → P (set_invitation i (revoked_row now) d)
  pub organization : (o : Organization) (d : Directory) → P d → P (with_organization o d)
  pub settings :
      (o : ℕ) (request : OrganizationUpdateRequest) (now : ℕ) (d : Directory)
      → P d
      → P (set_organization o (with_settings request now) d)
  pub user : (u : User) (d : Directory) → P d → P (with_user u d)
  pub profile :
      (u : ℕ) (email : List ℕ) (name : Option (List ℕ)) (now : ℕ) (d : Directory)
      → P d
      → P (set_user u (with_profile email name now) d)

new_id :
    (m : Membership) (d : Directory)
    → refuses_membership m d ≡ false
    → count_where (has_id m.id) d.memberships ≡ 0
new_id m d h = count_where_none (has_id m.id) d.memberships (ground (arith, h))

pub add_row-IsKeyed :
    (m : Membership) (d : Directory)
    → refuses_membership m d ≡ false
    → IsKeyed d
    → IsKeyed (with_membership m d)
unfolding IsKeyed
add_row-IsKeyed m d fresh keyed x = elim (Bool-cases (m.id == x)) [
  | inl e ↦
      let same : m.id ≡ x = (==_iff m.id x).0 e in
      ground
        (arith, rw same at (new_id m d fresh), count_where-append (has_id x) d.memberships (m ∷ []))
  | inr e ↦ ground (arith, keyed x, e, count_where-append (has_id x) d.memberships (m ∷ []))
]

pub update-IsKeyed :
    (x : ℕ) (f : Membership → Membership) (d : Directory)
    → ((m : Membership) → (f m).id ≡ m.id)
    → IsKeyed d
    → IsKeyed (with_update x f d)
unfolding IsKeyed
update-IsKeyed x f d same keyed y = omega (
  arith,
  keyed y,
  count_where-update_where (has_id y) (has_id x) f d.memberships,
  count_where_imp (λ m. has_id y (if has_id x m then f m else m)) (has_id y) d.memberships
      (λ m h. ground (arith, same m, h)),
)

pub add_mapping_has_role :
    (keeps : Role → Bool) (k m r : ℕ) (d : Directory)
    → has_role keeps k d ≡ true
    → has_role keeps k (with_mapping m r d) ≡ true
add_mapping_has_role keeps k m r d = has_role_imp keeps k d (with_mapping m r d) refl (λ q h.
    ground (
      arith,
      h,
      any-append (maps k q) d.membership_roles (record { membership_id = m; role_id = r } ∷ []),
    ))

-- The statements on memberships keep what their three writes keep.
module _ {P : Directory → Type 0}
    (row : (m : Membership) (d : Directory)
      → refuses_membership m d ≡ false
      → P d
      → P (with_membership m d))
    (mapping : (m r : ℕ) (d : Directory) → P d → P (with_mapping m r d))
    (activation : (x now : ℕ) (d : Directory) → P d → P (with_update x (activated now) d)) where
  pub add_membership-Preserves : (m : Membership) → Preserves (P) (add_membership m)
  unfolding add_membership
  add_membership-Preserves m = record {
    run = λ d a d' p e.
        let (fresh, wrote) = checked_inv (refuses_membership m) _ (with_membership m) d d' a e in
        rw wrote at (row m d fresh p);
  }

  pub add_membership_role-Preserves : (m r : ℕ) → Preserves (P) (add_membership_role m r)
  unfolding add_membership_role
  add_membership_role-Preserves m r = record {
    run = λ d a d' p e.
        let (fresh, wrote) =
          checked_inv (refuses_mapping m r) integrity_error (with_mapping m r) d d' a e in
        rw wrote at (mapping m r d p);
  }

  find_or_add-Preserves :
      (id tenant u invitation now : ℕ) (found : Option Membership)
      → Preserves (P) (find_or_add id tenant u invitation now found)
  unfolding add_invited_membership
  find_or_add-Preserves id tenant u invitation now none =
      Preserves-bind _ _ (add_membership-Preserves _) (λ _. Preserves-pure _)
  find_or_add-Preserves id tenant u invitation now (some m) =
      Preserves-if (is_active_status m.status) (pure m)
        (modify (with_update m.id (activated now)) >> pure (activated now m))
        (λ _. Preserves-pure m)
        (λ _.
          Preserves-bind _ _
            (Preserves-modify (with_update m.id (activated now)) (activation m.id now))
            (λ _. Preserves-pure (activated now m)))

  add_missing_roles-Preserves :
      (m : ℕ) (existing rs : List ℕ) → Preserves (P) (add_missing_roles m existing rs)
  add_missing_roles-Preserves m existing [] = Preserves-pure _
  add_missing_roles-Preserves m existing (r ∷ rs) =
      Preserves-bind _ _
        (Preserves-if _ _ _ (λ _. Preserves-pure _) (λ _. add_membership_role-Preserves m r))
        (λ _. add_missing_roles-Preserves m existing rs)

  pub activate_membership-Preserves :
      (id tenant u invitation : ℕ) (role_ids : List ℕ) (now : ℕ)
      → Preserves (P) (activate_membership_from_invitation id tenant u invitation role_ids now)
  unfolding activate_membership_from_invitation
  activate_membership-Preserves id tenant u invitation role_ids now =
      Preserves-bind _ _ (Preserves-read _) (λ found.
        Preserves-bind _ _ (find_or_add-Preserves id tenant u invitation now found) (λ m.
          Preserves-bind _ _ (Preserves-read (list_membership_role_ids m.id)) (λ existing.
            Preserves-bind _ _ (add_missing_roles-Preserves m.id existing role_ids)
              (λ _. Preserves-pure m))))

module _ (t : ℕ) where
  add_row-HasOwner :
      (m : Membership) (d : Directory)
      → refuses_membership m d ≡ false
      → HasOwner t d
      → HasOwner t (with_membership m d)
  unfolding HasOwner count_active_owners
  add_row-HasOwner m d fresh (keyed, owned) = (
    add_row-IsKeyed m d fresh keyed,
    ground (arith, owned, count_where-append (is_active_owner t d) d.memberships (m ∷ [])),
  )

  add_mapping-HasOwner : (m r : ℕ) (d : Directory) → HasOwner t d → HasOwner t (with_mapping m r d)
  unfolding HasOwner IsKeyed count_active_owners
  add_mapping-HasOwner m r d (keyed, owned) = (
    keyed,
    omega (
      arith,
      owned,
      count_where_imp (is_active_owner t d) (is_active_owner t (with_mapping m r d)) d.memberships
          (λ x h. ground (arith, h, add_mapping_has_role is_owner_role x.id m r d)),
    ),
  )

  activate-HasOwner :
      (x now : ℕ) (d : Directory) → HasOwner t d → HasOwner t (with_update x (activated now) d)
  unfolding HasOwner count_active_owners
  activate-HasOwner x now d (keyed, owned) = (
    update-IsKeyed x (activated now) d (λ m. refl) keyed,
    omega (
      arith,
      owned,
      count_where-update_where (is_active_owner t d) (has_id x) (activated now) d.memberships,
      count_where_imp (is_active_owner t d)
          (λ m. is_active_owner t d (if has_id x m then activated now m else m)) d.memberships
          (λ m h. ground (arith, h)),
    ),
  )

  pub HasOwner-Frame : Frame (HasOwner t)
  unfolding HasOwner IsKeyed count_active_owners
  HasOwner-Frame = record {
    row = add_row-HasOwner;
    mapping = add_mapping-HasOwner;
    activation = activate-HasOwner;
    invitation = λ i d p. p;
    invited_role = λ i r d p. p;
    acceptance = λ i u now d p. p;
    revocation = λ i now d p. p;
    organization = λ o d p. p;
    settings = λ o request now d p. p;
    user = λ u d p. p;
    profile = λ u email name now d p. p;
  }
