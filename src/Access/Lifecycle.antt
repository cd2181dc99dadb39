-- ===== src/Access/Lifecycle.antt =====
-- The life of an invitation in services/api/app/modules/invitations/service.py.
use serviq.Common.{
  ℕ, String, ◌≡◌, refl, sym, ap, ◌∙◌, subst, inl, inr, ◌==◌, Option, none, some, Bool, true, not,
  List, arith, any, ==_refl, find_where, find_where-update_where,
}
use serviq.Access.Rows.{
  Directory, Role, OrganizationInvitation, Error, Tx, ok, err, ◌>>=◌, ◌>>◌, pure, gets, modify,
  raise_if, transaction, raise_if_inv, bind_inv, transaction_cases, invitation_acceptance_rejected,
}
use serviq.Access.Tenancy.{activate_membership_from_invitation}
use serviq.Access.Steps.{Steps}
use serviq.Access.Spent.{IsSpent, Steps-IsSpent}
use serviq.Access.Keeping.{activate_membership-Preserves}
use serviq.Access.Invitations.{
  InvitationView, VerifiedWorkforceIdentity, has_digest, is_acceptable_invitation, accepted_row,
  set_invitation, accept_found, accept_lookup, accept_body, accept_verified, verified_email,
  accept_invitation, list_invitation_roles, find_assignable_roles, ids_of, same_set, to_view,
  find_invitation_by_token_hash_for_update,
}

-- What a committed acceptance went through.
accept_found_inv :
    (id u now : ℕ) (i : OrganizationInvitation) (d d' : Directory) (view : InvitationView)
    → accept_found id u now i d ≡ ok (view, d')
    → (m : _) × (d1 : Directory) × (activate_membership_from_invitation id i.tenant_id u i.id
          (ids_of (list_invitation_roles i.id d))
          now
          d
        ≡ ok (m, d1))
      × (set_invitation i.id (accepted_row u now) d1 ≡ d')
unfolding accept_found
accept_found_inv id u now i d d' view h =
    let (_, h1) =
      raise_if_inv (not (any (λ _. true) roles)) invitation_acceptance_rejected checked d (view, d')
        h in
    let (_, h2) =
      raise_if_inv
        (not
          (same_set (ids_of (find_assignable_roles i.tenant_id (ids_of roles) d)) (ids_of roles)))
        invitation_acceptance_rejected activated d (view, d') h1 in
    let (m, d1, ran, h3) =
      bind_inv (activate_membership_from_invitation id i.tenant_id u i.id (ids_of roles) now)
        (λ _. finished) d (view, d') h2 in
    (m, d1, ran, cc)
  where
    roles : List Role
    roles = list_invitation_roles i.id d

    finished : Tx InvitationView
    finished =
        modify (set_invitation i.id (accepted_row u now))
        >> pure (to_view (accepted_row u now i) roles)

    activated : Tx InvitationView
    activated =
        activate_membership_from_invitation id i.tenant_id u i.id (ids_of roles) now >> finished

    checked : Tx InvitationView
    checked = gets (find_assignable_roles i.tenant_id (ids_of roles)) >>= λ assignable.
        raise_if (not (same_set (ids_of assignable) (ids_of roles))) invitation_acceptance_rejected
        >> activated

accept_body_inv :
    (id u : ℕ) (email : List ℕ) (h : String) (now : ℕ) (d d' : Directory) (view : InvitationView)
    → accept_body id u email h now d ≡ ok (view, d')
    → (i : OrganizationInvitation) × (find_where (has_digest h) d.invitations ≡ some i)
      × (is_acceptable_invitation email now i ≡ true)
      × (accept_found id u now i d ≡ ok (view, d'))
unfolding accept_body find_invitation_by_token_hash_for_update
accept_body_inv id u email h now d d' view ran =
    found (find_where (has_digest h) d.invitations) refl ran
  where
    found :
        (o : Option OrganizationInvitation)
        → find_where (has_digest h) d.invitations ≡ o
        → accept_lookup id u email now o d ≡ ok (view, d')
        → (i : OrganizationInvitation) × (find_where (has_digest h) d.invitations ≡ some i)
          × (is_acceptable_invitation email now i ≡ true)
          × (accept_found id u now i d ≡ ok (view, d'))
    found none e k = absurd (cc)
    found (some i) e k =
        let (passed, rest) =
          raise_if_inv (not (is_acceptable_invitation email now i)) invitation_acceptance_rejected
            (accept_found id u now i) d (view, d') k in
        (i, e, ground (arith, passed), rest)

-- Joining an organization does not touch the invitations.
activate_invitations :
    (id t u i : ℕ) (rs : List ℕ) (now : ℕ) (d d1 : Directory) (m : _)
    → activate_membership_from_invitation id t u i rs now d ≡ ok (m, d1)
    → d1.invitations ≡ d.invitations
activate_invitations id t u i rs now d d1 m h =
    (activate_membership-Preserves {P = λ x. x.invitations ≡ d.invitations} (λ _ _ _ p. p)
        (λ _ _ _ p. p) (λ _ _ _ p. p) id t u i rs now).run
      d m d1 refl h

-- The row of an accepted token is not acceptable again.
spent_row :
    (id u : ℕ) (email : List ℕ) (h : String) (now : ℕ) (d d' : Directory) (view : InvitationView)
    → accept_body id u email h now d ≡ ok (view, d')
    → (i : OrganizationInvitation) × (find_where (has_digest h) d'.invitations
        ≡ some (accepted_row u now i))
spent_row id u email h now d d' view ran =
    let (i, e, _, found) = accept_body_inv id u email h now d d' view ran in
    let (m, d1, joined, end_eq) = accept_found_inv id u now i d d' view found in
    let there : find_where (has_digest h) d1.invitations ≡ some i =
      ap (find_where (has_digest h)) (
        activate_invitations id i.tenant_id u i.id (ids_of (list_invitation_roles i.id d)) now d d1
          m joined)
      ∙ e in
    (
      i,
      ground (
        arith,
        sym end_eq,
        ==_refl i.id,
        find_where-update_where (has_digest h) (λ x. x.id == i.id) (accepted_row u now)
            d1.invitations i (λ x. refl) there,
      ),
    )

spent_rejected :
    (id u : ℕ) (email : List ℕ) (h : String) (now : ℕ) (d : Directory)
    → IsSpent h d
    → transaction (accept_body id u email h now) d ≡ (err invitation_acceptance_rejected, d)
unfolding accept_body find_invitation_by_token_hash_for_update is_acceptable_invitation
spent_rejected id u email h now d (i, e, over) = rw (e, over, ◌>>=◌, gets, transaction)

-- A token admits one user once: after `accept_invitation` has committed, and after any further
-- transactions of members, invitations, organizations and sign-ins, in any order and by any
-- callers, a call with the same token, by any user, with any identity and at any time, raises and
-- changes no table.
pub accept_invitation-once :
    (digest : String → String) (space : ℕ → Bool) (casefold : List ℕ → List ℕ) (id u now : ℕ)
    (identity : VerifiedWorkforceIdentity) (token : String) (id2 u2 now2 : ℕ)
    (identity2 : VerifiedWorkforceIdentity) (d d1 d2 : Directory) (view : InvitationView)
    → accept_invitation digest space casefold id u identity token now d ≡ (ok view, d1)
    → Steps digest space casefold d1 d2
    → (e : Error) × (accept_invitation digest space casefold id2 u2 identity2 token now2 d2
        ≡ (err e, d2))
unfolding accept_invitation
accept_invitation-once digest space casefold id u now identity token id2 u2 now2 identity2 d d1 d2
      view h later =
    first (verified_email space casefold identity.email identity.email_verified) h
  where
    again :
        IsSpent (digest token) d2
        → (email : Option (List ℕ))
        → (e : Error) × (accept_verified id2 u2 (digest token) now2 email d2 ≡ (err e, d2))
    again spent none = (_, refl)
    again spent (some email) = (_, spent_rejected id2 u2 email (digest token) now2 d2 spent)

    first :
        (email : Option (List ℕ))
        → accept_verified id u (digest token) now email d ≡ (ok view, d1)
        → (e : Error) × (accept_invitation digest space casefold id2 u2 identity2 token now2 d2
            ≡ (err e, d2))
    first none k = absurd (cc)
    first (some email) k = elim (transaction_cases (accept_body id u email (digest token) now) d) [
      | inl (e, failed, undone) ↦ absurd (cc)
      | inr (v, d', ran, committed) ↦
          let end_eq : d' ≡ d1 = cc in
          let (i, e) =
            spent_row id u email (digest token) now d d1 v
              (subst (λ x. accept_body id u email (digest token) now d ≡ ok (v, x)) end_eq ran) in
          again (Steps-IsSpent (digest token) d1 d2 later (accepted_row u now i, e, refl))
            (verified_email space casefold identity2.email identity2.email_verified)
    ]
