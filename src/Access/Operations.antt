-- ===== src/Access/Operations.antt =====
-- The operations of services/api/app/modules/{invitations,organizations,workforce}/service.py
-- keep what their statements keep.
use serviq.Common.{ℕ, String, Option, none, some, Bool, true, not, List, [], ◌∷◌, any, str_eq, ◌+◌}
use serviq.Common.Tx.Preserves.{
  Preserves, Preserves-pure, Preserves-read, Preserves-raise, Preserves-raise_if, Preserves-bind,
  Preserves-modify, Preserves-if, Preserves-checked, Preserves-on_error, Preserves-transaction,
}
use serviq.Access.Rows.{
  Directory, Role, Organization, OrganizationInvitation, User, Error, pure, modify, ◌>>◌,
  integrity_error, invitation_role_invalid, invitation_acceptance_rejected,
  organization_settings_forbidden,
}
use serviq.Access.Keeping.{
  Frame, add_membership-Preserves, add_membership_role-Preserves, activate_membership-Preserves,
}
use serviq.Access.Reads.{resolve-Preserves, may_invite-Preserves}
use serviq.Access.Invitations.{
  InvitationCreateRequest, VerifiedWorkforceIdentity, list_invitation_roles, find_assignable_roles,
  ids_of, same_set, invitation_lifetime, to_view, find_tenant_invitation,
  find_invitation_by_token_hash_for_update, set_invitation, pending_invitation, with_invitation,
  with_invited_role, refuses_invitation, refuses_invited_role, add_invitation, add_invitation_role,
  add_invitation_roles, as_conflict, create_body, accepted_row, accept_found, accept_lookup,
  accept_body, accept_verified, verified_email, accept_invitation, create_invitation, revoked_row,
  revoke_found, revoke_body, revoke_invitation,
}
use serviq.Access.Organizations as Org
use serviq.Access.Workforce.{
  add_user, new_user, with_user, refuses_user, set_user, with_profile, sync_active_user,
  sync_winner, find_user_by_oidc_identity, is_changed, name_or_email, upsert_found, upsert_body,
  upsert_with_email, upsert_verified_workforce_user,
}

module _ {P : Directory → Type 0} (F : Frame P) where
  add_invitation-Preserves :
      (id o : ℕ) (email : List ℕ) (h : _) (u expires now : ℕ)
      → Preserves P (add_invitation id o email h u expires now)
  unfolding add_invitation
  add_invitation-Preserves id o email h u expires now =
      let i : OrganizationInvitation = pending_invitation id o email h u expires now in
      Preserves-checked (refuses_invitation i) integrity_error (with_invitation i) (pure i)
        (F.invitation i) (Preserves-pure i)

  add_invitation_role-Preserves : (i r : ℕ) → Preserves P (add_invitation_role i r)
  unfolding add_invitation_role
  add_invitation_role-Preserves i r =
      Preserves-bind _ _ (Preserves-read (refuses_invited_role i r)) (λ refused.
        Preserves-bind _ _ (Preserves-raise_if refused integrity_error)
          (λ _. Preserves-modify (with_invited_role i r) (F.invited_role i r)))

  add_invitation_roles-Preserves : (i : ℕ) (rs : List ℕ) → Preserves P (add_invitation_roles i rs)
  add_invitation_roles-Preserves i [] = Preserves-pure _
  add_invitation_roles-Preserves i (r ∷ rs) =
      Preserves-bind _ _ (add_invitation_role-Preserves i r)
        (λ _. add_invitation_roles-Preserves i rs)

  create_body-Preserves :
      (id u o : ℕ) (request : InvitationCreateRequest) (h : _) (now : ℕ)
      → Preserves P (create_body id u o request h now)
  unfolding create_body
  create_body-Preserves id u o request h now = Preserves-bind _ _ (may_invite-Preserves u o) (λ _.
      Preserves-bind _ _ (Preserves-read (find_assignable_roles o request.role_ids)) (λ roles.
        Preserves-bind _ _
          (Preserves-raise_if (not (same_set (ids_of roles) request.role_ids))
            invitation_role_invalid)
          (λ _.
            Preserves-bind _ _
              (Preserves-on_error _ as_conflict
                (add_invitation-Preserves id o request.email h u (now + invitation_lifetime) now)
                (λ e. Preserves-raise _))
              (λ i.
                Preserves-bind _ _ (add_invitation_roles-Preserves i.id (ids_of roles))
                  (λ _. Preserves-pure (to_view i roles))))))

  accept_found-Preserves :
      (id u now : ℕ) (i : OrganizationInvitation) → Preserves P (accept_found id u now i)
  unfolding accept_found
  accept_found-Preserves id u now i =
      Preserves-bind _ _ (Preserves-read (list_invitation_roles i.id)) (λ roles.
        Preserves-bind _ _
          (Preserves-raise_if (not (any (λ _. true) roles)) invitation_acceptance_rejected)
          (λ _.
            Preserves-bind _ _ (Preserves-read (find_assignable_roles i.tenant_id (ids_of roles)))
              (λ assignable.
                Preserves-bind _ _
                  (Preserves-raise_if (not (same_set (ids_of assignable) (ids_of roles)))
                    invitation_acceptance_rejected)
                  (λ _.
                    Preserves-bind _ _
                      (activate_membership-Preserves F.row F.mapping F.activation id i.tenant_id u
                        i.id (ids_of roles) now)
                      (λ _.
                        Preserves-bind _ _
                          (Preserves-modify (set_invitation i.id (accepted_row u now))
                            (F.acceptance i.id u now))
                          (λ _. Preserves-pure (to_view (accepted_row u now i) roles)))))))

  accept_body-Preserves :
      (id u : ℕ) (email : List ℕ) (h : _) (now : ℕ) → Preserves P (accept_body id u email h now)
  unfolding accept_body
  accept_body-Preserves id u email h now =
      Preserves-bind _ _ (Preserves-read (find_invitation_by_token_hash_for_update h)) found
    where
      found : (i : Option OrganizationInvitation) → Preserves P (accept_lookup id u email now i)
      found none = Preserves-raise _
      found (some i) =
          Preserves-bind _ _ (Preserves-raise_if _ _) (λ _. accept_found-Preserves id u now i)

  revoke_body-Preserves : (u o i now : ℕ) → Preserves P (revoke_body u o i now)
  unfolding revoke_body
  revoke_body-Preserves u o i now =
      Preserves-bind _ _ (may_invite-Preserves u o)
        (λ _. Preserves-bind _ _ (Preserves-read (find_tenant_invitation o i)) found)
    where
      found : (i : Option OrganizationInvitation) → Preserves P (revoke_found now i)
      found none = Preserves-raise _
      found (some i) = Preserves-bind _ _ (Preserves-raise_if _ _) (λ _.
          Preserves-bind _ _
            (Preserves-modify (set_invitation i.id (revoked_row now)) (F.revocation i.id now))
            (λ _.
              Preserves-bind _ _ (Preserves-read (list_invitation_roles i.id))
                (λ roles. Preserves-pure (to_view (revoked_row now i) roles))))

  add_organization-Preserves :
      (id : ℕ) (slug name : _) (now : ℕ) → Preserves P (Org.add_organization id slug name now)
  unfolding Org.add_organization
  add_organization-Preserves id slug name now =
      let o : Organization = Org.new_organization id slug name now in
      Preserves-checked (Org.refuses_organization o) integrity_error (Org.with_organization o)
        (pure o) (F.organization o) (Preserves-pure o)

  create_organization_body-Preserves :
      (id mid u : ℕ) (request : Org.OrganizationCreateRequest) (now : ℕ)
      → Preserves P (Org.create_body id mid u request now)
  unfolding Org.create_body Org.add_active_membership
  create_organization_body-Preserves id mid u request now =
      Preserves-bind _ _ (Preserves-read (Org.find_global_system_role "owner")) found
    where
      found : (r : Option Role) → Preserves P (Org.create_with_role id mid u request now r)
      found none = Preserves-raise _
      found (some r) =
          Preserves-bind _ _
            (Preserves-on_error _ Org.as_slug_conflict
              (add_organization-Preserves id request.slug request.display_name now)
              (λ e. Preserves-raise _))
            (λ o.
              Preserves-bind _ _
                (Preserves-bind _ _
                  (add_membership-Preserves F.row F.mapping F.activation
                    (Org.new_member mid o.id u now))
                  (λ _. Preserves-pure (Org.new_member mid o.id u now)))
                (λ m.
                  Preserves-bind _ _
                    (add_membership_role-Preserves F.row F.mapping F.activation m.id r.id)
                    (λ _. Preserves-pure (Org.to_view o))))

  update_organization_body-Preserves :
      (u o : ℕ) (request : Org.OrganizationUpdateRequest) (now : ℕ)
      → Preserves P (Org.update_body u o request now)
  unfolding Org.update_body
  update_organization_body-Preserves u o request now =
      Preserves-bind _ _ (Preserves-read (Org.find_organization_for_active_member o u)) found
    where
      found : (x : Option Organization) → Preserves P (Org.update_found u o request now x)
      found none = Preserves-raise _
      found (some x) = Preserves-bind _ _ (resolve-Preserves u o) (λ m.
          Preserves-bind _ _
            (Preserves-raise_if (not (any (str_eq Org.settings_permission) m.permissions))
              organization_settings_forbidden)
            (λ _.
              Preserves-bind _ _
                (Preserves-modify (Org.set_organization x.id (Org.with_settings request now))
                  (F.settings x.id request now))
                (λ _. Preserves-pure (Org.to_view (Org.with_settings request now x)))))

  sync_user-Preserves :
      (u : User) (email : List ℕ) (name : Option (List ℕ)) (now : ℕ)
      → Preserves P (sync_active_user u email name now)
  unfolding sync_active_user
  sync_user-Preserves u email name now = Preserves-bind _ _ (Preserves-raise_if _ _) (λ _.
      Preserves-if (is_changed email name u)
        (modify (set_user u.id (with_profile email name now))
          >> pure (with_profile email name now u))
        (pure u)
        (λ _.
          Preserves-bind _ _
            (Preserves-modify (set_user u.id (with_profile email name now))
              (F.profile u.id email name now))
            (λ _. Preserves-pure (with_profile email name now u)))
        (λ _. Preserves-pure u))

  upsert_body-Preserves :
      (id : ℕ) (identity : VerifiedWorkforceIdentity) (email : List ℕ) (now : ℕ)
      → Preserves P (upsert_body id identity email now)
  unfolding upsert_body add_user
  upsert_body-Preserves id identity email now =
      Preserves-bind _ _
        (Preserves-bind _ _
          (Preserves-read (find_user_by_oidc_identity identity.issuer identity.subject)) found)
        (λ u. Preserves-pure _)
    where
      winner :
          (e : Error) (u : Option User)
          → Preserves P (sync_winner email identity.display_name now e u)
      winner e none = Preserves-raise _
      winner e (some u) = sync_user-Preserves u email identity.display_name now

      added : User
      added =
          new_user id identity.issuer identity.subject email
            (name_or_email identity.display_name email) now

      found : (u : Option User) → Preserves P (upsert_found id identity email now u)
      found (some u) = sync_user-Preserves u email identity.display_name now
      found none =
          Preserves-on_error _ _
            (Preserves-checked (refuses_user added) integrity_error (with_user added) (pure added)
              (F.user added) (Preserves-pure added))
            (λ e.
              Preserves-bind _ _
                (Preserves-read (find_user_by_oidc_identity identity.issuer identity.subject))
                (winner e))

  pub create_invitation-Preserves :
      (digest : String → String) (id u o : ℕ) (request : InvitationCreateRequest) (token : String)
      (now : ℕ) (d : Directory)
      → P d
      → P (create_invitation digest id u o request token now d).1
  unfolding create_invitation
  create_invitation-Preserves digest id u o request token now d =
      Preserves-transaction _
        (Preserves-bind _ _ (create_body-Preserves id u o request (digest token) now)
          (λ view. Preserves-pure (view, token)))
        d

  pub accept_invitation-Preserves :
      (digest : String → String) (space : ℕ → Bool) (casefold : List ℕ → List ℕ) (id u : ℕ)
      (identity : VerifiedWorkforceIdentity) (token : String) (now : ℕ) (d : Directory)
      → P d
      → P (accept_invitation digest space casefold id u identity token now d).1
  unfolding accept_invitation
  accept_invitation-Preserves digest space casefold id u identity token now d p =
      verified (verified_email space casefold identity.email identity.email_verified)
    where
      verified : (email : Option (List ℕ)) → P (accept_verified id u (digest token) now email d).1
      verified none = p
      verified (some email) =
          Preserves-transaction _ (accept_body-Preserves id u email (digest token) now) d p

  pub revoke_invitation-Preserves :
      (u o i now : ℕ) (d : Directory) → P d → P (revoke_invitation u o i now d).1
  unfolding revoke_invitation
  revoke_invitation-Preserves u o i now d =
      Preserves-transaction _ (revoke_body-Preserves u o i now) d

  pub create_organization-Preserves :
      (id mid u : ℕ) (request : Org.OrganizationCreateRequest) (now : ℕ) (d : Directory)
      → P d
      → P (Org.create_organization id mid u request now d).1
  unfolding Org.create_organization
  create_organization-Preserves id mid u request now d =
      Preserves-transaction _ (create_organization_body-Preserves id mid u request now) d

  pub update_organization-Preserves :
      (u o : ℕ) (request : Org.OrganizationUpdateRequest) (now : ℕ) (d : Directory)
      → P d
      → P (Org.update_organization u o request now d).1
  unfolding Org.update_organization
  update_organization-Preserves u o request now d =
      Preserves-transaction _ (update_organization_body-Preserves u o request now) d

  pub upsert_user-Preserves :
      (id : ℕ) (identity : VerifiedWorkforceIdentity) (now : ℕ) (d : Directory)
      → P d
      → P (upsert_verified_workforce_user id identity now d).1
  unfolding upsert_verified_workforce_user
  upsert_user-Preserves id identity now d p = with_email identity.email
    where
      with_email : (email : Option (List ℕ)) → P (upsert_with_email id identity now email d).1
      with_email none = p
      with_email (some email) =
          Preserves-transaction _ (upsert_body-Preserves id identity email now) d p
