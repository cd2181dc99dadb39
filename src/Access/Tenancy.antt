-- ===== src/Access/Tenancy.antt =====
-- services/api/app/modules/tenancy/repository.py and service.py: memberships, their roles, and
-- the permissions that these give.
use text.Mathlib.Text.{is_lt}
use Prim.Native.String.{compare as compare_text}
use serviq.Common.{
  ℕ, String, Option, none, some, Bool, not, ◌&&◌, ◌||◌, List, [], ◌∷◌, ◌++◌, map, ltb, ◌==◌, str_eq,
  if◌then◌else◌, is_some, is_id, find_where, filter_where, update_where, any, sort_by,
}
use serviq.Access.Rows.{
  Directory, Membership, MembershipStatus, MembershipRole, Role, RolePermission, Organization, User,
  is_active_status, Tx, ◌>>=◌, ◌>>◌, pure, gets, modify, raise, raise_if, tenant_membership_access,
  integrity_error,
}

-- `str < str`, by code points
abbrev pub str_lt : String → String → Bool
str_lt a b = is_lt (compare_text a b)

abbrev pub is_organization : ℕ → Organization → Bool
is_organization t o = o.id == t

abbrev pub is_user : ℕ → User → Bool
is_user u x = x.id == u

abbrev pub is_member : ℕ → ℕ → Membership → Bool
is_member t u m = m.tenant_id == t && m.user_id == u

unfoldable pub find_membership : ℕ → ℕ → Directory → Option Membership
find_membership t u d = find_where (is_member t u) d.memberships

abbrev is_active_of : ℕ → Membership → Bool
is_active_of u m = m.user_id == u && is_active_status m.status

abbrev tenant_of : Membership → ℕ
tenant_of m = m.tenant_id

unfoldable pub list_active_tenant_ids_for_user : ℕ → Directory → List ℕ
list_active_tenant_ids_for_user u d =
    sort_by ltb (map tenant_of (filter_where (is_active_of u) d.memberships))

-- A row that the unique keys (id; tenant_id, user_id) or a foreign key refuses.
abbrev pub refuses_membership : Membership → Directory → Bool
refuses_membership m d =
    any (λ x. x.id == m.id) d.memberships
    || any (is_member m.tenant_id m.user_id) d.memberships
    || not (any (is_organization m.tenant_id) d.organizations)
    || not (any (is_user m.user_id) d.users)

-- `session.add` of a membership, with its flush.
unfoldable pub add_membership : Membership → Tx (Unit {0})
add_membership m = gets (refuses_membership m) >>= λ refused.
    raise_if refused integrity_error
    >> modify (λ d. record d { memberships = d.memberships ++ m ∷ [] })

unfoldable pub add_invited_membership : ℕ → ℕ → ℕ → ℕ → ℕ → Tx Membership
add_invited_membership id tenant_id user_id invitation_id now =
    let m : Membership = record {
      id = id;
      tenant_id = tenant_id;
      user_id = user_id;
      status = MembershipStatus.active;
      created_by_invitation_id = some invitation_id;
      created_at = now;
      updated_at = now;
    } in
    add_membership m >> pure m

abbrev pub maps : ℕ → ℕ → MembershipRole → Bool
maps m r x = x.membership_id == m && x.role_id == r

unfoldable pub list_membership_role_ids : ℕ → Directory → List ℕ
list_membership_role_ids m d =
    map (λ x. x.role_id) (filter_where (λ x. x.membership_id == m) d.membership_roles)

abbrev pub refuses_mapping : ℕ → ℕ → Directory → Bool
refuses_mapping m r d =
    any (maps m r) d.membership_roles
    || not (any (λ x. x.id == m) d.memberships)
    || not (any (λ x. x.id == r) d.roles)

-- `session.add` of a mapping, with its flush.
unfoldable pub add_membership_role : ℕ → ℕ → Tx (Unit {0})
add_membership_role m r = gets (refuses_mapping m r) >>= λ refused.
    raise_if refused integrity_error
    >> modify (λ d. record d {
      membership_roles = d.membership_roles ++ record { membership_id = m; role_id = r } ∷ [];
    })

-- `approved_role`
abbrev is_approved : ℕ → Role → Bool
is_approved t r = is_id r.tenant_id t || (not (is_some r.tenant_id) && r.is_system)

-- The roles of a membership that `keeps` lets through.
abbrev pub has_role : (Role → Bool) → ℕ → Directory → Bool
has_role keeps m d = any (λ r. keeps r && any (maps m r.id) d.membership_roles) d.roles

-- Whether the join gives a permission row to the membership.
abbrev grants : ℕ → ℕ → Directory → RolePermission → Bool
grants m t d p = has_role (λ r. is_approved t r && r.id == p.role_id) m d

-- `sorted(set(...))`
abbrev distinct_text : List String → List String
distinct_text [] = []
distinct_text (x ∷ xs) =
    let rest = distinct_text xs in if any (str_eq x) rest then rest else x ∷ rest

unfoldable pub list_effective_permission_keys : ℕ → ℕ → Directory → List String
list_effective_permission_keys m t d =
    sort_by str_lt
      (distinct_text (map (λ p. p.permission_key) (filter_where (grants m t d) d.role_permissions)))

pub record ResolvedTenantMembership : Type 0 where
  pub membership_id : ℕ
  pub tenant_id : ℕ
  pub user_id : ℕ
  pub status : MembershipStatus
  pub permissions : List String

abbrev pub resolved_view : ℕ → Membership → Directory → ResolvedTenantMembership
resolved_view t m d = record {
  membership_id = m.id;
  tenant_id = m.tenant_id;
  user_id = m.user_id;
  status = m.status;
  permissions = list_effective_permission_keys m.id t d;
}

abbrev pub resolve_found : ℕ → Option Membership → Tx ResolvedTenantMembership
resolve_found t none = raise tenant_membership_access
resolve_found t (some m) =
    raise_if (not (is_active_status m.status)) tenant_membership_access >> gets (resolved_view t m)

unfoldable pub resolve_tenant_membership : ℕ → ℕ → Tx ResolvedTenantMembership
resolve_tenant_membership u t = gets (find_membership t u) >>= resolve_found t

-- `tenant_ids[0]` when there is exactly one
abbrev only_one : List ℕ → Option ℕ
only_one [] = none
only_one (t ∷ []) = some t
only_one (t ∷ _ ∷ _) = none

unfoldable pub resolve_default_active_tenant_id : ℕ → Directory → Option ℕ
resolve_default_active_tenant_id u d = only_one (list_active_tenant_ids_for_user u d)

-- The loop over the invitation's roles.
abbrev pub add_missing_roles : ℕ → List ℕ → List ℕ → Tx (Unit {0})
add_missing_roles m existing [] = pure tt
add_missing_roles m existing (r ∷ rs) =
    (if any (λ x. x == r) existing then pure tt else add_membership_role m r)
    >> add_missing_roles m existing rs

abbrev pub activated : ℕ → Membership → Membership
activated now m = record m { status = MembershipStatus.active; updated_at = now }

abbrev pub activate_row : ℕ → Membership → Tx Membership
activate_row now m =
    if is_active_status m.status
    then pure m
    else (modify (λ d. record d {
      memberships = update_where (λ x. x.id == m.id) (activated now) d.memberships;
    })
        >> pure (activated now m))

-- The two statuses that the table admits leave nothing for the branch that raises.
abbrev pub find_or_add : ℕ → ℕ → ℕ → ℕ → ℕ → Option Membership → Tx Membership
find_or_add id t u invitation now none = add_invited_membership id t u invitation now
find_or_add id t u invitation now (some m) = activate_row now m

-- `id` is the key that the database gives to a new membership.
unfoldable pub activate_membership_from_invitation : ℕ → ℕ → ℕ → ℕ → List ℕ → ℕ → Tx Membership
activate_membership_from_invitation id t u invitation role_ids now =
    gets (find_membership t u) >>= λ found. find_or_add id t u invitation now found >>= λ m.
    gets (list_membership_role_ids m.id) >>= λ existing.
    add_missing_roles m.id existing role_ids >> pure m
