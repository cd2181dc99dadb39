-- ===== src/Access/Rows.antt =====
-- The tables of services/api/app/modules/tenancy/models.py, invitations/models.py,
-- organizations/models.py and workforce/models.py, and the errors of these modules. A UUID is a
-- number that is only compared; a datetime counts microseconds since a fixed epoch; an e-mail
-- address is its code points. The mapping tables keep the two columns of their unique key:
-- no statement reads their own ids and times.
use serviq.Common.{ℕ, String, Option, List, Bool, true, false}
use serviq.Common.Tx.{Tx as TxOver, Result as ResultOver}
pub use serviq.Common.Tx.{
  ok, err, ◌>>=◌, ◌>>◌, pure, gets, modify, raise, raise_if, transaction, on_error, raise_if_inv,
  bind_inv, transaction_cases, if_inv, on_error_inv, modify_inv, checked_inv,
}

pub data MembershipStatus : Type 0 where
  active suspended : MembershipStatus

-- `status == "active"`
abbrev pub is_active_status : MembershipStatus → Bool
is_active_status MembershipStatus.active = true
is_active_status MembershipStatus.suspended = false

pub data UserStatus : Type 0 where
  active disabled : UserStatus

abbrev pub is_enabled : UserStatus → Bool
is_enabled UserStatus.active = true
is_enabled UserStatus.disabled = false

pub data OrganizationStatus : Type 0 where
  active suspended deleted : OrganizationStatus

pub data InvitationStatus : Type 0 where
  pending accepted revoked expired : InvitationStatus

abbrev pub is_pending : InvitationStatus → Bool
is_pending InvitationStatus.pending = true
is_pending _ = false

pub record Membership : Type 0 where
  pub id : ℕ
  pub tenant_id : ℕ
  pub user_id : ℕ
  pub status : MembershipStatus
  pub created_by_invitation_id : Option ℕ
  pub created_at : ℕ
  pub updated_at : ℕ

pub record Role : Type 0 where
  pub id : ℕ
  pub tenant_id : Option ℕ
  pub key : String
  pub display_name : String
  pub is_system : Bool

pub record RolePermission : Type 0 where
  pub role_id : ℕ
  pub permission_key : String

pub record MembershipRole : Type 0 where
  pub membership_id : ℕ
  pub role_id : ℕ

pub record OrganizationInvitation : Type 0 where
  pub id : ℕ
  pub tenant_id : ℕ
  pub email_normalized : List ℕ
  pub token_hash : String
  pub status : InvitationStatus
  pub invited_by_user_id : ℕ
  pub accepted_by_user_id : Option ℕ
  pub expires_at : ℕ
  pub accepted_at : Option ℕ
  pub revoked_at : Option ℕ
  pub created_at : ℕ
  pub updated_at : ℕ

pub record OrganizationInvitationRole : Type 0 where
  pub invitation_id : ℕ
  pub role_id : ℕ

pub record Organization : Type 0 where
  pub id : ℕ
  pub slug : String
  pub display_name : String
  pub status : OrganizationStatus
  pub default_locale : String
  pub created_at : ℕ
  pub updated_at : ℕ

pub record User : Type 0 where
  pub id : ℕ
  pub oidc_issuer : String
  pub oidc_subject : String
  pub email : List ℕ
  pub display_name : List ℕ
  pub status : UserStatus
  pub created_at : ℕ
  pub updated_at : ℕ

-- The tables, in insertion order.
pub record Directory : Type 0 where
  pub organizations : List Organization
  pub users : List User
  pub memberships : List Membership
  pub roles : List Role
  pub role_permissions : List RolePermission
  pub membership_roles : List MembershipRole
  pub invitations : List OrganizationInvitation
  pub invitation_roles : List OrganizationInvitationRole

pub data Error : Type 0 where
  tenant_membership_access : Error
  invitation_access_not_found invitation_forbidden invitation_role_invalid : Error
  invitation_conflict invitation_lifecycle_conflict invitation_acceptance_rejected : Error
  invitation_verified_email_required : Error
  membership_access_not_found membership_forbidden membership_role_invalid : Error
  last_active_owner_conflict : Error
  organization_not_found organization_settings_forbidden organization_slug_conflict : Error
  owner_role_unavailable : Error
  disabled_workforce_user workforce_identity_profile : Error
  integrity_error : Error

abbrev pub Result : Type 0 → Type 0
Result A = ResultOver Error A

-- The body of a transaction on these tables.
abbrev pub Tx : Type 0 → Type 0
Tx A = TxOver Directory Error A
