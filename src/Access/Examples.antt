-- ===== src/Access/Examples.antt =====
-- The theorems on services/api/app/modules/{members,organizations,invitations} at concrete
-- tables.
use serviq.Common.{
  ℕ, String, ◌≤◌, ◌≡◌, refl, none, some, Bool, true, List, [], ◌∷◌, arith, ◌==◌, strip,
}
use serviq.Access.Rows.{
  Directory, Membership, MembershipStatus, Role, Organization, OrganizationStatus,
  OrganizationInvitation, InvitationStatus, User, UserStatus, Error, ok, err,
}
use serviq.Access.Invitations.{
  InvitationView, InvitationCreateRequest, VerifiedWorkforceIdentity, accept_invitation,
  create_invitation, revoke_invitation, find_tenant_invitation,
}
use serviq.Access.Members.{MemberUpdateRequest, update_member, count_active_owners}
use serviq.Access.Organizations.{OrganizationCreateRequest, OrganizationView, create_organization}
use serviq.Access.Owners.{IsKeyed}
use serviq.Access.Keeping.{HasOwner}
use serviq.Access.MemberUpdate.{update_member-HasOwner}
use serviq.Access.Steps.{step, done, updates_member, created_organization-HasOwner}
use serviq.Access.Lifecycle.{accept_invitation-once}
use serviq.Access.Expiry.{expired_invitation-blocks}

abbrev space : ℕ → Bool
space c = c == 32

abbrev same_text : List ℕ → List ℕ
same_text cs = cs

abbrev plain : String → String
plain s = s

abbrev ada : User
ada = record {
  id = 10;
  oidc_issuer = "idp";
  oidc_subject = "ada";
  email = 97 ∷ 64 ∷ 98 ∷ [];
  display_name = 97 ∷ [];
  status = UserStatus.active;
  created_at = 1;
  updated_at = 1;
}

abbrev bob : User
bob = record ada { id = 11; oidc_subject = "bob"; email = 99 ∷ 64 ∷ 98 ∷ [] }

abbrev owner : Role
owner = record { id = 7; tenant_id = none; key = "owner"; display_name = "Owner"; is_system = true }

abbrev admin : Role
admin = record { id = 8; tenant_id = none; key = "admin"; display_name = "Admin"; is_system = true }

-- No organization yet: the seeded roles and two users.
abbrev seeded : Directory
seeded = record {
  organizations = [];
  users = ada ∷ bob ∷ [];
  memberships = [];
  roles = owner ∷ admin ∷ [];
  role_permissions = record { role_id = 7; permission_key = "organization.members.manage" } ∷ [];
  membership_roles = [];
  invitations = [];
  invitation_roles = [];
}

abbrev acme : Organization
acme = record {
  id = 1;
  slug = "acme";
  display_name = "Acme";
  status = OrganizationStatus.active;
  default_locale = "en";
  created_at = 5;
  updated_at = 5;
}

abbrev member : ℕ → ℕ → Membership
member id user = record {
  id = id;
  tenant_id = 1;
  user_id = user;
  status = MembershipStatus.active;
  created_by_invitation_id = none;
  created_at = 5;
  updated_at = 5;
}

abbrev pub two_owners : Directory
two_owners = record seeded {
  organizations = acme ∷ [];
  memberships = member 100 10 ∷ member 101 11 ∷ [];
  membership_roles =
      record { membership_id = 100; role_id = 7 }
      ∷ record { membership_id = 101; role_id = 7 }
      ∷ [];
}

two_owners-HasOwner : HasOwner 1 two_owners
unfolding HasOwner IsKeyed count_active_owners
two_owners-HasOwner = (λ x. ground arith, ground arith)

abbrev demotion : MemberUpdateRequest
demotion = record { role_ids = some (8 ∷ []); status = none }

update_member-HasOwner_example : HasOwner 1 (update_member 10 1 101 demotion 9 two_owners).1
update_member-HasOwner_example =
    update_member-HasOwner 1 10 1 101 9 demotion two_owners two_owners-HasOwner

abbrev founding : OrganizationCreateRequest
founding = record { slug = "acme"; display_name = "Acme" }

abbrev acme_view : OrganizationView
acme_view = record {
  id = 1;
  slug = "acme";
  display_name = "Acme";
  status = OrganizationStatus.active;
  default_locale = "en";
}

abbrev founded : Directory
founded = (create_organization 1 100 10 founding 5 seeded).1

founded_ok : create_organization 1 100 10 founding 5 seeded ≡ (ok acme_view, founded)
unfolding create_organization serviq.Access.Organizations.create_body
    serviq.Access.Organizations.find_global_system_role serviq.Access.Organizations.add_organization
    serviq.Access.Organizations.add_active_membership serviq.Access.Organizations.to_view
    serviq.Access.Tenancy.add_membership serviq.Access.Tenancy.add_membership_role
founded_ok = refl

seeded-IsKeyed : IsKeyed seeded
unfolding IsKeyed
seeded-IsKeyed x = omega arith

abbrev suspension : MemberUpdateRequest
suspension = record { role_ids = none; status = some MembershipStatus.suspended }

created_organization-HasOwner_example :
    1 ≤ count_active_owners 1 (update_member 10 1 100 suspension 9 founded).1
created_organization-HasOwner_example =
    created_organization-HasOwner plain space same_text 1 100 10 founding 5 seeded founded
      (update_member 10 1 100 suspension 9 founded).1 acme_view seeded-IsKeyed founded_ok
      (step founded (update_member 10 1 100 suspension 9 founded).1
        (update_member 10 1 100 suspension 9 founded).1
        (updates_member 10 1 100 9 suspension founded)
        (done (update_member 10 1 100 suspension 9 founded).1))

abbrev invitation : OrganizationInvitation
invitation = record {
  id = 50;
  tenant_id = 1;
  email_normalized = 99 ∷ 64 ∷ 98 ∷ [];
  token_hash = "secret";
  status = InvitationStatus.pending;
  invited_by_user_id = 10;
  accepted_by_user_id = none;
  expires_at = 100;
  accepted_at = none;
  revoked_at = none;
  created_at = 5;
  updated_at = 5;
}

abbrev invited : Directory
invited = record seeded {
  organizations = acme ∷ [];
  memberships = member 100 10 ∷ [];
  membership_roles = record { membership_id = 100; role_id = 7 } ∷ [];
  invitations = invitation ∷ [];
  invitation_roles = record { invitation_id = 50; role_id = 8 } ∷ [];
}

abbrev bobs_identity : VerifiedWorkforceIdentity
bobs_identity = record {
  issuer = "idp";
  subject = "bob";
  email = some (99 ∷ 64 ∷ 98 ∷ []);
  email_verified = true;
  display_name = none;
}

abbrev accepted_view : InvitationView
accepted_view = record {
  id = 50;
  email = 99 ∷ 64 ∷ 98 ∷ [];
  status = InvitationStatus.accepted;
  expires_at = 100;
  roles = record { id = 8; key = "admin"; display_name = "Admin" } ∷ [];
  invited_by_user_id = 10;
  accepted_by_user_id = some 11;
  accepted_at = some 20;
  revoked_at = none;
  created_at = 5;
  updated_at = 20;
}

abbrev joined : Directory
joined = (accept_invitation plain space same_text 101 11 bobs_identity "secret" 20 invited).1

joined_ok :
    accept_invitation plain space same_text 101 11 bobs_identity "secret" 20 invited
    ≡ (ok accepted_view, joined)
unfolding accept_invitation serviq.Access.Email.normalize_invitation_email
    serviq.Access.Email.is_invalid_email strip serviq.Access.Invitations.accept_body
    serviq.Access.Invitations.find_invitation_by_token_hash_for_update
    serviq.Access.Invitations.is_acceptable_invitation serviq.Access.Invitations.accept_found
    serviq.Access.Invitations.list_invitation_roles serviq.Access.Invitations.find_assignable_roles
    serviq.Access.Invitations.to_view serviq.Access.Tenancy.activate_membership_from_invitation
    serviq.Access.Tenancy.find_membership serviq.Access.Tenancy.add_invited_membership
    serviq.Access.Tenancy.add_membership serviq.Access.Tenancy.list_membership_role_ids
    serviq.Access.Tenancy.add_membership_role
joined_ok = refl

-- The owner then suspends the new member, who tries the token again.
abbrev suspended : Directory
suspended = (update_member 10 1 101 suspension 21 joined).1

accept_invitation-once_example :
    (e : Error) × (accept_invitation plain space same_text 102 11 bobs_identity "secret" 22
        suspended
      ≡ (err e, suspended))
accept_invitation-once_example =
    accept_invitation-once plain space same_text 101 11 20 bobs_identity "secret" 102 11 22
      bobs_identity invited joined suspended accepted_view joined_ok
      (step joined suspended suspended (updates_member 10 1 101 21 suspension joined)
        (done suspended))

abbrev same_address : InvitationCreateRequest
same_address = record { email = 99 ∷ 64 ∷ 98 ∷ []; role_ids = 8 ∷ [] }

expired_invitation-blocks_example :
    ((e : Error) × (revoke_invitation 10 1 50 100 invited ≡ (err e, invited)))
    × ((e : Error) × (create_invitation plain 51 10 1 same_address "fresh" 100 invited
          ≡ (err e, invited)))
unfolding find_tenant_invitation
expired_invitation-blocks_example =
    expired_invitation-blocks plain 1 50 100 invitation 10 51 10 same_address "fresh" 100 invited
      refl refl (omega arith) refl
