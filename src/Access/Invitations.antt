-- ===== src/Access/Invitations.antt =====
-- services/api/app/modules/invitations/repository.py and service.py. The token's digest
-- (SHA-256) and Python's character tests are parameters. The invite URL is not built: the view
-- of a new invitation is returned with the plaintext token that goes into it.
use serviq.Common.{
  ℕ, ◌+◌, ◌*◌, String, Option, none, some, Bool, true, not, ◌&&◌, ◌||◌, List, [], ◌∷◌, ◌++◌, map,
  ltb, leb, ◌==◌, str_eq, if◌then◌else◌, is_some, is_id, find_where, filter_where, update_where,
  any, sort_by,
}
use serviq.Access.Rows.{
  Directory, Role, OrganizationInvitation, OrganizationInvitationRole, InvitationStatus, is_pending,
  Error, Tx, Result, err, ◌>>=◌, ◌>>◌, pure, gets, modify, raise, raise_if, transaction, on_error,
  invitation_access_not_found, invitation_forbidden, invitation_role_invalid, invitation_conflict,
  invitation_lifecycle_conflict, invitation_acceptance_rejected, invitation_verified_email_required,
  integrity_error,
}
use serviq.Access.Email.{text_eq, normalize_invitation_email}
use serviq.Access.Tenancy.{
  str_lt, is_organization, is_user, ResolvedTenantMembership, resolve_tenant_membership,
  activate_membership_from_invitation,
}

abbrev pub manage_permission : String
manage_permission = "organization.members.manage"

-- timedelta(days=7)
abbrev pub invitation_lifetime : ℕ
invitation_lifetime = 7 * 24 * 60 * 60 * 1000000

abbrev pub mem : ℕ → List ℕ → Bool
mem x ys = any (λ y. y == x) ys

-- `ASSIGNABLE_GLOBAL_ROLE_KEYS`
abbrev is_assignable_key : String → Bool
is_assignable_key key = str_eq key "owner" || str_eq key "admin"

abbrev pub is_assignable : ℕ → Role → Bool
is_assignable t r =
    is_id r.tenant_id t || (not (is_some r.tenant_id) && r.is_system && is_assignable_key r.key)

unfoldable pub find_assignable_roles : ℕ → List ℕ → Directory → List Role
find_assignable_roles t ids d = filter_where (λ r. mem r.id ids && is_assignable t r) d.roles

abbrev pub ids_of : List Role → List ℕ
ids_of rs = map (λ r. r.id) rs

abbrev pub subset : List ℕ → List ℕ → Bool
subset [] ys = true
subset (x ∷ xs) ys = mem x ys && subset xs ys

-- `set(xs) == set(ys)`
abbrev pub same_set : List ℕ → List ℕ → Bool
same_set xs ys = subset xs ys && subset ys xs

-- ORDER BY key, id
abbrev pub role_before : Role → Role → Bool
role_before r s = str_lt r.key s.key || (str_eq r.key s.key && ltb r.id s.id)

abbrev invites : ℕ → ℕ → OrganizationInvitationRole → Bool
invites i r x = x.invitation_id == i && x.role_id == r

unfoldable pub list_invitation_roles : ℕ → Directory → List Role
list_invitation_roles i d =
    sort_by role_before (filter_where (λ r. any (invites i r.id) d.invitation_roles) d.roles)

-- A pending row of the partial unique index on (tenant_id, email_normalized).
abbrev pub is_pending_for : ℕ → List ℕ → OrganizationInvitation → Bool
is_pending_for t email i =
    i.tenant_id == t && text_eq i.email_normalized email && is_pending i.status

abbrev pub refuses_invitation : OrganizationInvitation → Directory → Bool
refuses_invitation i d =
    any (λ x. x.id == i.id) d.invitations
    || any (λ x. str_eq x.token_hash i.token_hash) d.invitations
    || (is_pending i.status && any (is_pending_for i.tenant_id i.email_normalized) d.invitations)
    || not (any (is_organization i.tenant_id) d.organizations)
    || not (any (is_user i.invited_by_user_id) d.users)

abbrev pub pending_invitation : ℕ → ℕ → List ℕ → String → ℕ → ℕ → ℕ → OrganizationInvitation
pending_invitation id tenant_id email token_hash invited_by expires_at now = record {
  id = id;
  tenant_id = tenant_id;
  email_normalized = email;
  token_hash = token_hash;
  status = InvitationStatus.pending;
  invited_by_user_id = invited_by;
  accepted_by_user_id = none;
  expires_at = expires_at;
  accepted_at = none;
  revoked_at = none;
  created_at = now;
  updated_at = now;
}

abbrev pub with_invitation : OrganizationInvitation → Directory → Directory
with_invitation i d = record d { invitations = d.invitations ++ i ∷ [] }

abbrev pub insert_invitation : OrganizationInvitation → Tx OrganizationInvitation
insert_invitation i = gets (refuses_invitation i) >>= λ refused.
    raise_if refused integrity_error >> (modify (with_invitation i) >> pure i)

-- `add_invitation` with the flush that follows it. `id` and `now` of a row are the database's.
unfoldable pub add_invitation : ℕ → ℕ → List ℕ → String → ℕ → ℕ → ℕ → Tx OrganizationInvitation
add_invitation id tenant_id email token_hash invited_by expires_at now =
    insert_invitation (pending_invitation id tenant_id email token_hash invited_by expires_at now)

abbrev pub refuses_invited_role : ℕ → ℕ → Directory → Bool
refuses_invited_role i r d =
    any (invites i r) d.invitation_roles
    || not (any (λ x. x.id == i) d.invitations)
    || not (any (λ x. x.id == r) d.roles)

abbrev pub with_invited_role : ℕ → ℕ → Directory → Directory
with_invited_role i r d = record d {
  invitation_roles = d.invitation_roles ++ record { invitation_id = i; role_id = r } ∷ [];
}

unfoldable pub add_invitation_role : ℕ → ℕ → Tx (Unit {0})
add_invitation_role i r = gets (refuses_invited_role i r) >>= λ refused.
    raise_if refused integrity_error >> modify (with_invited_role i r)

-- ORDER BY created_at DESC, id DESC
abbrev newer : OrganizationInvitation → OrganizationInvitation → Bool
newer i j = ltb j.created_at i.created_at || (i.created_at == j.created_at && ltb j.id i.id)

unfoldable pub list_tenant_invitations : ℕ → Directory → List OrganizationInvitation
list_tenant_invitations t d = sort_by newer (filter_where (λ i. i.tenant_id == t) d.invitations)

abbrev pub is_invitation : ℕ → ℕ → OrganizationInvitation → Bool
is_invitation t id i = i.id == id && i.tenant_id == t

unfoldable pub find_tenant_invitation : ℕ → ℕ → Directory → Option OrganizationInvitation
find_tenant_invitation t id d = find_where (is_invitation t id) d.invitations

abbrev pub has_digest : String → OrganizationInvitation → Bool
has_digest h i = str_eq i.token_hash h

unfoldable pub find_invitation_by_token_hash_for_update :
    String → Directory → Option OrganizationInvitation
find_invitation_by_token_hash_for_update h d = find_where (has_digest h) d.invitations

-- `UPDATE organization_invitations ... WHERE id`, from the unit of work.
abbrev pub set_invitation :
    ℕ → (OrganizationInvitation → OrganizationInvitation) → Directory → Directory
set_invitation id f d = record d { invitations = update_where (λ x. x.id == id) f d.invitations }

pub record InvitationRoleView : Type 0 where
  pub id : ℕ
  pub key : String
  pub display_name : String

pub record InvitationView : Type 0 where
  pub id : ℕ
  pub email : List ℕ
  pub status : InvitationStatus
  pub expires_at : ℕ
  pub roles : List InvitationRoleView
  pub invited_by_user_id : ℕ
  pub accepted_by_user_id : Option ℕ
  pub accepted_at : Option ℕ
  pub revoked_at : Option ℕ
  pub created_at : ℕ
  pub updated_at : ℕ

abbrev role_view : Role → InvitationRoleView
role_view r = record { id = r.id; key = r.key; display_name = r.display_name }

unfoldable pub to_view : OrganizationInvitation → List Role → InvitationView
to_view i roles = record {
  id = i.id;
  email = i.email_normalized;
  status = i.status;
  expires_at = i.expires_at;
  roles = map role_view roles;
  invited_by_user_id = i.invited_by_user_id;
  accepted_by_user_id = i.accepted_by_user_id;
  accepted_at = i.accepted_at;
  revoked_at = i.revoked_at;
  created_at = i.created_at;
  updated_at = i.updated_at;
}

-- The handler of `TenantMembershipAccessError`, the one exception of the call.
abbrev hide_access : Error → Tx ResolvedTenantMembership
hide_access _ = raise invitation_access_not_found

unfoldable pub require_manage_permission : ℕ → ℕ → Tx (Unit {0})
require_manage_permission u o = on_error (resolve_tenant_membership u o) hide_access >>= λ m.
    raise_if (not (any (str_eq manage_permission) m.permissions)) invitation_forbidden

pub record InvitationCreateRequest : Type 0 where
  pub email : List ℕ
  pub role_ids : List ℕ

abbrev pub add_invitation_roles : ℕ → List ℕ → Tx (Unit {0})
add_invitation_roles i [] = pure tt
add_invitation_roles i (r ∷ rs) = add_invitation_role i r >> add_invitation_roles i rs

-- The handler of `IntegrityError`.
abbrev pub as_conflict : Error → Tx OrganizationInvitation
as_conflict _ = raise invitation_conflict

unfoldable pub create_body : ℕ → ℕ → ℕ → InvitationCreateRequest → String → ℕ → Tx InvitationView
create_body id u o request token_hash now =
    require_manage_permission u o
    >> (gets (find_assignable_roles o request.role_ids) >>= λ roles.
        raise_if (not (same_set (ids_of roles) request.role_ids)) invitation_role_invalid
        >> (on_error
              (add_invitation id o request.email token_hash u (now + invitation_lifetime) now)
              as_conflict
            >>= λ i. add_invitation_roles i.id (ids_of roles) >> pure (to_view i roles)))

pub record VerifiedWorkforceIdentity : Type 0 where
  pub issuer : String
  pub subject : String
  pub email : Option (List ℕ)
  pub email_verified : Bool
  pub display_name : Option (List ℕ)

unfoldable pub is_acceptable_invitation : List ℕ → ℕ → OrganizationInvitation → Bool
is_acceptable_invitation email now i =
    is_pending i.status
    && not (is_some i.revoked_at)
    && not (is_some i.accepted_at)
    && not (is_some i.accepted_by_user_id)
    && ltb now i.expires_at
    && text_eq i.email_normalized email

abbrev pub accepted_row : ℕ → ℕ → OrganizationInvitation → OrganizationInvitation
accepted_row u now i = record i {
  accepted_by_user_id = some u;
  accepted_at = some now;
  status = InvitationStatus.accepted;
  updated_at = now;
}

-- From `list_invitation_roles` on; `id` is the key of a membership that has to be added.
unfoldable pub accept_found : ℕ → ℕ → ℕ → OrganizationInvitation → Tx InvitationView
accept_found id u now i = gets (list_invitation_roles i.id) >>= λ roles.
    raise_if (not (any (λ _. true) roles)) invitation_acceptance_rejected
    >> (gets (find_assignable_roles i.tenant_id (ids_of roles)) >>= λ assignable.
        raise_if (not (same_set (ids_of assignable) (ids_of roles))) invitation_acceptance_rejected
        >> (activate_membership_from_invitation id i.tenant_id u i.id (ids_of roles) now
            >> (modify (set_invitation i.id (accepted_row u now))
                >> pure (to_view (accepted_row u now i) roles))))

abbrev pub accept_lookup : ℕ → ℕ → List ℕ → ℕ → Option OrganizationInvitation → Tx InvitationView
accept_lookup id u email now none = raise invitation_acceptance_rejected
accept_lookup id u email now (some i) =
    raise_if (not (is_acceptable_invitation email now i)) invitation_acceptance_rejected
    >> accept_found id u now i

unfoldable pub accept_body : ℕ → ℕ → List ℕ → String → ℕ → Tx InvitationView
accept_body id u email token_hash now =
    gets (find_invitation_by_token_hash_for_update token_hash) >>= accept_lookup id u email now

abbrev pub accept_verified :
    ℕ → ℕ → String → ℕ → Option (List ℕ) → Directory → Result InvitationView × Directory
accept_verified id u token_hash now none d = (err invitation_verified_email_required, d)
accept_verified id u token_hash now (some email) d =
    transaction (accept_body id u email token_hash now) d

abbrev pub verified_email :
    (ℕ → Bool) → (List ℕ → List ℕ) → Option (List ℕ) → Bool → Option (List ℕ)
verified_email space casefold none verified = none
verified_email space casefold (some email) verified =
    if verified then normalize_invitation_email space casefold email else none

abbrev pub revoked_row : ℕ → OrganizationInvitation → OrganizationInvitation
revoked_row now i = record i {
  status = InvitationStatus.revoked;
  revoked_at = some now;
  updated_at = now;
}

abbrev pub revoke_found : ℕ → Option OrganizationInvitation → Tx InvitationView
revoke_found now none = raise invitation_access_not_found
revoke_found now (some i) =
    raise_if (not (is_pending i.status) || leb i.expires_at now) invitation_lifecycle_conflict
    >> (modify (set_invitation i.id (revoked_row now))
        >> (gets (list_invitation_roles i.id) >>= λ roles.
            pure (to_view (revoked_row now i) roles)))

unfoldable pub revoke_body : ℕ → ℕ → ℕ → ℕ → Tx InvitationView
revoke_body u o invitation_id now =
    require_manage_permission u o
    >> (gets (find_tenant_invitation o invitation_id) >>= revoke_found now)

unfoldable pub revoke_invitation : ℕ → ℕ → ℕ → ℕ → Directory → Result InvitationView × Directory
revoke_invitation u o invitation_id now d = transaction (revoke_body u o invitation_id now) d

abbrev views : Directory → List OrganizationInvitation → List InvitationView
views d [] = []
views d (i ∷ is) = to_view i (list_invitation_roles i.id d) ∷ views d is

unfoldable pub list_invitations : ℕ → ℕ → Tx (List InvitationView)
list_invitations u o =
    require_manage_permission u o >> gets (λ d. views d (list_tenant_invitations o d))

module _ (digest : String → String) where
  unfoldable pub create_invitation :
      ℕ
      → ℕ
      → ℕ
      → InvitationCreateRequest
      → String
      → ℕ
      → Directory
      → Result (InvitationView × String) × Directory
  create_invitation id u o request token now d =
      transaction (create_body id u o request (digest token) now >>= λ view. pure (view, token)) d

  unfoldable pub accept_invitation :
      (ℕ → Bool)
      → (List ℕ → List ℕ)
      → ℕ
      → ℕ
      → VerifiedWorkforceIdentity
      → String
      → ℕ
      → Directory
      → Result InvitationView × Directory
  accept_invitation space casefold id u identity token now d =
      accept_verified id u (digest token) now
        (verified_email space casefold identity.email identity.email_verified) d
