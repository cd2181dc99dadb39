-- ===== src/Access/Members.antt =====
-- services/api/app/modules/members/repository.py and service.py.
use serviq.Common.{
  ℕ, String, Option, none, some, Bool, true, false, not, ◌&&◌, ◌||◌, List, [], ◌∷◌, map, ltb, leb,
  ◌==◌, str_eq, if◌then◌else◌, is_some, find_where, filter_where, delete_where, update_where,
  count_where, any, sort_by, take, drop,
}
use serviq.Access.Rows.{
  Directory, Membership, MembershipStatus, Role, User, is_active_status, Error, Tx, Result, ◌>>=◌,
  ◌>>◌, pure, gets, modify, raise, raise_if, transaction, on_error, membership_access_not_found,
  membership_forbidden, membership_role_invalid, last_active_owner_conflict,
}
use serviq.Access.Tenancy.{
  is_organization, is_user, maps, has_role, add_membership_role, ResolvedTenantMembership,
  resolve_tenant_membership,
}
use serviq.Access.Invitations.{
  manage_permission, find_assignable_roles, ids_of, same_set, role_before,
}

-- `approved_global` with the owner key; `_contains_owner` has the same test.
abbrev pub is_owner_role : Role → Bool
is_owner_role r = not (is_some r.tenant_id) && r.is_system && str_eq r.key "owner"

abbrev member_before : Membership → Membership → Bool
member_before m n = ltb m.created_at n.created_at || (m.created_at == n.created_at && ltb m.id n.id)

unfoldable pub list_tenant_memberships : ℕ → ℕ → ℕ → Directory → List Membership
list_tenant_memberships t limit offset d =
    take limit
      (drop offset (sort_by member_before (filter_where (λ m. m.tenant_id == t) d.memberships)))

abbrev pub is_membership : ℕ → ℕ → Membership → Bool
is_membership t id m = m.id == id && m.tenant_id == t

unfoldable pub find_tenant_membership : ℕ → ℕ → Directory → Option Membership
find_tenant_membership t id d = find_where (is_membership t id) d.memberships

unfoldable pub find_workforce_user : ℕ → Directory → Option User
find_workforce_user u d = find_where (is_user u) d.users

unfoldable pub list_membership_roles : ℕ → Directory → List Role
list_membership_roles m d =
    sort_by role_before (filter_where (λ r. any (maps m r.id) d.membership_roles) d.roles)

-- Whether the join of `count_active_owners` reaches the membership.
abbrev pub is_active_owner : ℕ → Directory → Membership → Bool
is_active_owner t d m =
    m.tenant_id == t && is_active_status m.status && has_role is_owner_role m.id d

-- count(distinct memberships.id); the ids of the rows are distinct already.
unfoldable pub count_active_owners : ℕ → Directory → ℕ
count_active_owners t d = count_where (is_active_owner t d) d.memberships

abbrev pub add_membership_roles : ℕ → List ℕ → Tx (Unit {0})
add_membership_roles m [] = pure tt
add_membership_roles m (r ∷ rs) = add_membership_role m r >> add_membership_roles m rs

abbrev pub clear_roles : ℕ → Directory → Directory
clear_roles m d = record d {
  membership_roles = delete_where (λ x. x.membership_id == m) d.membership_roles;
}

unfoldable pub replace_membership_roles : ℕ → List ℕ → Tx (Unit {0})
replace_membership_roles m role_ids = modify (clear_roles m) >> add_membership_roles m role_ids

abbrev hide_access : Error → Tx ResolvedTenantMembership
hide_access _ = raise membership_access_not_found

unfoldable pub require_manage_permission : ℕ → ℕ → Tx (Unit {0})
require_manage_permission u o = on_error (resolve_tenant_membership u o) hide_access >>= λ m.
    raise_if (not (any (str_eq manage_permission) m.permissions)) membership_forbidden

pub record MemberRoleView : Type 0 where
  pub id : ℕ
  pub key : String
  pub display_name : String

pub record MemberView : Type 0 where
  pub membership_id : ℕ
  pub user_id : ℕ
  pub email : List ℕ
  pub display_name : List ℕ
  pub status : MembershipStatus
  pub roles : List MemberRoleView

abbrev role_view : Role → MemberRoleView
role_view r = record { id = r.id; key = r.key; display_name = r.display_name }

abbrev to_view : Membership → User → List Role → MemberView
to_view m u roles = record {
  membership_id = m.id;
  user_id = u.id;
  email = u.email;
  display_name = u.display_name;
  status = m.status;
  roles = map role_view roles;
}

abbrev pub view_of : Membership → Option User → Tx MemberView
view_of m none = raise membership_access_not_found
view_of m (some u) = gets (λ d. to_view m u (list_membership_roles m.id d))

unfoldable pub membership_view : Membership → Tx MemberView
membership_view m = gets (find_workforce_user m.user_id) >>= view_of m

abbrev membership_views : List Membership → Tx (List MemberView)
membership_views [] = pure []
membership_views (m ∷ ms) = membership_view m >>= λ v. membership_views ms >>= λ vs. pure (v ∷ vs)

unfoldable pub list_members : ℕ → ℕ → ℕ → ℕ → Tx (List MemberView)
list_members u o limit offset =
    require_manage_permission u o
    >> (gets (list_tenant_memberships o limit offset) >>= membership_views)

pub record MemberUpdateRequest : Type 0 where
  pub role_ids : Option (List ℕ)
  pub status : Option MembershipStatus

abbrev pub contains_owner : List Role → Bool
contains_owner roles = any is_owner_role roles

-- `next_roles`, or MembershipRoleInvalidError.
abbrev pub next_roles : ℕ → List Role → Option (List ℕ) → Tx (List Role)
next_roles o current none = pure current
next_roles o current (some ids) = gets (find_assignable_roles o ids) >>= λ assignable.
    raise_if (not (same_set (ids_of assignable) ids)) membership_role_invalid >> pure assignable

-- `request.status or target.status`
abbrev pub next_status : Membership → Option MembershipStatus → MembershipStatus
next_status target none = target.status
next_status target (some s) = s

abbrev pub removes_active_owner : Membership → MembershipStatus → List Role → List Role → Bool
removes_active_owner target status current next =
    is_active_status target.status
    && contains_owner current
    && (not (is_active_status status) || not (contains_owner next))

-- The guard on the last active owner.
unfoldable pub guard_last_owner : ℕ → Bool → Tx (Unit {0})
guard_last_owner o removes = gets (count_active_owners o) >>= λ count.
    raise_if (removes && leb count 1) last_active_owner_conflict

abbrev pub same_status : MembershipStatus → MembershipStatus → Bool
same_status MembershipStatus.active MembershipStatus.active = true
same_status MembershipStatus.suspended MembershipStatus.suspended = true
same_status _ _ = false

abbrev pub with_status : MembershipStatus → ℕ → Membership → Membership
with_status s now m = record m { status = s; updated_at = now }

abbrev pub set_status : ℕ → MembershipStatus → ℕ → Directory → Directory
set_status id s now d = record d {
  memberships = update_where (λ m. m.id == id) (with_status s now) d.memberships;
}

abbrev pub write_roles : ℕ → List ℕ → Option (List ℕ) → Tx (Unit {0})
write_roles m next none = pure tt
write_roles m next (some _) = replace_membership_roles m next

abbrev pub write_status : Membership → ℕ → Option MembershipStatus → Tx Membership
write_status m now none = pure m
write_status m now (some s) =
    if same_status s m.status
    then pure m
    else (modify (set_status m.id s now) >> pure (with_status s now m))

unfoldable pub update_target : ℕ → ℕ → MemberUpdateRequest → Membership → Tx MemberView
update_target o now request target = gets (list_membership_roles target.id) >>= λ current.
    next_roles o current request.role_ids >>= λ next.
    guard_last_owner o
      (removes_active_owner target (next_status target request.status) current next)
    >> (write_roles target.id (ids_of next) request.role_ids
        >> (write_status target now request.status >>= membership_view))

abbrev pub update_found : ℕ → ℕ → MemberUpdateRequest → Option Membership → Tx MemberView
update_found o now request none = raise membership_access_not_found
update_found o now request (some target) = update_target o now request target

unfoldable pub update_body : ℕ → ℕ → ℕ → MemberUpdateRequest → ℕ → Tx MemberView
update_body u o membership_id request now =
    gets (λ d. any (is_organization o) d.organizations) >>= λ locked.
    raise_if (not locked) membership_access_not_found
    >> (require_manage_permission u o
        >> (gets (find_tenant_membership o membership_id) >>= update_found o now request))

unfoldable pub update_member :
    ℕ → ℕ → ℕ → MemberUpdateRequest → ℕ → Directory → Result MemberView × Directory
update_member u o membership_id request now d =
    transaction (update_body u o membership_id request now) d
