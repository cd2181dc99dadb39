-- ===== src/Access/Expiry.antt =====
-- An invitation past its `expires_at` in services/api/app/modules/invitations/service.py: its
-- status stays pending.
use serviq.Common.{
  ℕ, String, ◌+◌, ◌≤◌, ◌≡◌, refl, sym, ap, ◌∙◌, inl, inr, some, true, false, not, ◌&&◌, ◌||◌, List,
  arith, leb, any, any_found, any_imp, find_where, find_where_holds,
}
use serviq.Access.Rows.{
  Directory, Role, OrganizationInvitation, is_pending, Error, Tx, ok, err, ◌>>=◌, ◌>>◌, pure, gets,
  modify, raise_if, on_error, raise_if_inv, bind_inv, on_error_inv, transaction_cases,
  invitation_role_invalid, invitation_lifecycle_conflict, integrity_error,
}
use serviq.Access.Email.{text_eq}
use serviq.Access.Reads.{may_invite-Preserves}
use serviq.Access.Invitations.{
  InvitationView, InvitationCreateRequest, find_assignable_roles, ids_of, same_set, to_view,
  is_pending_for, pending_invitation, refuses_invitation, add_invitation, as_conflict, create_body,
  create_invitation, invitation_lifetime, require_manage_permission, add_invitation_roles,
  is_invitation, find_tenant_invitation, revoke_found, revoke_body, revoke_invitation,
  with_invitation, revoked_row, set_invitation, list_invitation_roles,
}

-- A permission check that passed left the tables as they were.
checked_same :
    (u o : ℕ) (d d' : Directory) (a : Unit {0})
    → require_manage_permission u o d ≡ ok (a, d')
    → d ≡ d'
checked_same u o d d' a h = (may_invite-Preserves {P = λ x. d ≡ x} u o).run d a d' refl h

-- What a committed `create_invitation` found in the table.
create_body_inv :
    (id u o : ℕ) (request : InvitationCreateRequest) (h : String) (now : ℕ) (d d' : Directory)
    (view : InvitationView)
    → create_body id u o request h now d ≡ ok (view, d')
    → refuses_invitation
        (pending_invitation id o request.email h u (now + invitation_lifetime) now)
        d
      ≡ false
unfolding create_body add_invitation
create_body_inv id u o request h now d d' view ran =
    let (a, d0, allowed, h1) =
      bind_inv (require_manage_permission u o) (λ _. after_check) d (view, d') ran in
    chosen (ap after_check (checked_same u o d d0 a allowed) ∙ h1)
  where
    i : OrganizationInvitation
    i = pending_invitation id o request.email h u (now + invitation_lifetime) now

    stored : List Role → Tx InvitationView
    stored roles =
        on_error (add_invitation id o request.email h u (now + invitation_lifetime) now) as_conflict
        >>= λ x. add_invitation_roles x.id (ids_of roles) >> pure (to_view x roles)

    after_check : Tx InvitationView
    after_check = gets (find_assignable_roles o request.role_ids) >>= λ roles.
        raise_if (not (same_set (ids_of roles) request.role_ids)) invitation_role_invalid
        >> stored roles

    chosen : after_check d ≡ ok (view, d') → refuses_invitation i d ≡ false
    chosen k =
        let roles : List Role = find_assignable_roles o request.role_ids d in
        let (_, h2) =
          raise_if_inv (not (same_set (ids_of roles) request.role_ids)) invitation_role_invalid
            (stored roles) d (view, d') k in
        let (x, d1, added, _) =
          bind_inv
            (on_error (add_invitation id o request.email h u (now + invitation_lifetime) now)
              as_conflict)
            (λ x. add_invitation_roles x.id (ids_of roles) >> pure (to_view x roles)) d (view, d')
            h2 in
        elim (on_error_inv (add_invitation id o request.email h u (now + invitation_lifetime) now)
          as_conflict d (x, d1) added) [
            | inl inserted ↦
                (raise_if_inv (refuses_invitation i d) integrity_error
                  (modify (with_invitation i) >> pure i) d (x, d1) inserted).0
            | inr (e, _, raised) ↦ absurd (cc)
          ]

revoke_body_inv :
    (u o id now : ℕ) (i : OrganizationInvitation) (d d' : Directory) (view : InvitationView)
    → find_where (is_invitation o id) d.invitations ≡ some i
    → revoke_body u o id now d ≡ ok (view, d')
    → (not (is_pending i.status) || leb i.expires_at now) ≡ false
unfolding revoke_body find_tenant_invitation
revoke_body_inv u o id now i d d' view e ran =
    let (a, d0, allowed, h1) =
      bind_inv (require_manage_permission u o) (λ _. looked_up) d (view, d') ran in
    let h2 : revoke_found now (find_where (is_invitation o id) d.invitations) d ≡ ok (view, d') =
      ap looked_up (checked_same u o d d0 a allowed) ∙ h1 in
    let h3 : revoke_found now (some i) d ≡ ok (view, d') =
      ap (λ x. revoke_found now x d) (sym e) ∙ h2 in
    (raise_if_inv (not (is_pending i.status) || leb i.expires_at now) invitation_lifecycle_conflict
      rest d (view, d') h3).0
  where
    looked_up : Tx InvitationView
    looked_up = gets (find_tenant_invitation o id) >>= revoke_found now

    rest : Tx InvitationView
    rest =
        modify (set_invitation i.id (revoked_row now))
        >> (gets (list_invitation_roles i.id) >>= λ roles. pure (to_view (revoked_row now i) roles))

-- A pending invitation past its `expires_at` can neither be revoked nor replaced: for any
-- caller, `revoke_invitation` on it and `create_invitation` for the same organization and
-- e-mail address both raise and change no table.
pub expired_invitation-blocks :
    (digest : String → String) (o invitation_id now : ℕ) (i : OrganizationInvitation) (u id u2 : ℕ)
    (request : InvitationCreateRequest) (token : String) (now2 : ℕ) (d : Directory)
    → find_tenant_invitation o invitation_id d ≡ some i
    → is_pending i.status ≡ true
    → i.expires_at ≤ now
    → text_eq i.email_normalized request.email ≡ true
    → ((e : Error) × (revoke_invitation u o invitation_id now d ≡ (err e, d)))
      × ((e : Error) × (create_invitation digest id u2 o request token now2 d ≡ (err e, d)))
unfolding revoke_invitation create_invitation find_tenant_invitation
expired_invitation-blocks digest o invitation_id now i u id u2 request token now2 d found waits late
      same =
    (
      elim (transaction_cases (revoke_body u o invitation_id now) d) [
        | inl (e, _, undone) ↦ (e, undone)
        | inr (view, d', ran, _) ↦ absurd (
            ground
              (arith, revoke_body_inv u o invitation_id now i d d' view found ran, waits, late))
      ],
      elim (transaction_cases (create_body id u2 o request (digest token) now2 >>= with_token) d) [
        | inl (e, _, undone) ↦ (e, undone)
        | inr (r, d', ran, _) ↦
            let (view, d1, created, _) =
              bind_inv (create_body id u2 o request (digest token) now2) with_token d (r, d') ran in
            absurd (
              ground (
                arith,
                create_body_inv id u2 o request (digest token) now2 d d1 view created,
                blocked,
              ))
      ],
    )
  where
    with_token : InvitationView → Tx (InvitationView × String)
    with_token view = pure (view, token)

    holds : is_invitation o invitation_id i ≡ true
    holds = find_where_holds (is_invitation o invitation_id) d.invitations i found

    blocked : any (is_pending_for o request.email) d.invitations ≡ true
    blocked =
        any_imp (λ x. is_invitation o invitation_id x && is_pending_for o request.email x)
          (is_pending_for o request.email) d.invitations (λ x h. ground (arith, h))
          (any_found (is_invitation o invitation_id) (is_pending_for o request.email) d.invitations
            i found (ground (arith, holds, waits, same)))
