-- ===== src/Access/Organizations.antt =====
-- services/api/app/modules/organizations/repository.py and service.py.
use serviq.Common.{
  ℕ, String, Option, none, some, Bool, not, ◌&&◌, ◌||◌, List, [], ◌∷◌, ◌++◌, map, ltb, ◌==◌, str_eq,
  is_some, find_where, filter_where, update_where, any, sort_by,
}
use serviq.Access.Rows.{
  Directory, Membership, MembershipStatus, Role, Organization, OrganizationStatus, is_active_status,
  Error, Tx, Result, ◌>>=◌, ◌>>◌, pure, gets, modify, raise, raise_if, transaction, on_error,
  organization_not_found, organization_settings_forbidden, organization_slug_conflict,
  owner_role_unavailable, integrity_error,
}
use serviq.Access.Tenancy.{
  is_organization, add_membership, add_membership_role, resolve_tenant_membership,
}

abbrev pub settings_permission : String
settings_permission = "organization.settings.write"

-- The join with the user's active memberships.
abbrev is_joined : ℕ → Directory → Organization → Bool
is_joined u d o =
    any (λ m. m.tenant_id == o.id && m.user_id == u && is_active_status m.status) d.memberships

abbrev older : Organization → Organization → Bool
older o p = ltb o.created_at p.created_at || (o.created_at == p.created_at && ltb o.id p.id)

unfoldable pub list_active_organizations_for_user : ℕ → Directory → List Organization
list_active_organizations_for_user u d =
    sort_by older (filter_where (is_joined u d) d.organizations)

unfoldable pub find_organization_for_active_member : ℕ → ℕ → Directory → Option Organization
find_organization_for_active_member o u d =
    find_where (λ x. is_organization o x && is_joined u d x) d.organizations

abbrev is_global_role : String → Role → Bool
is_global_role key r = not (is_some r.tenant_id) && r.is_system && str_eq r.key key

unfoldable pub find_global_system_role : String → Directory → Option Role
find_global_system_role key d = find_where (is_global_role key) d.roles

abbrev pub refuses_organization : Organization → Directory → Bool
refuses_organization o d =
    any (λ x. x.id == o.id) d.organizations || any (λ x. str_eq x.slug o.slug) d.organizations

abbrev pub new_organization : ℕ → String → String → ℕ → Organization
new_organization id slug display_name now = record {
  id = id;
  slug = slug;
  display_name = display_name;
  status = OrganizationStatus.active;
  default_locale = "en";
  created_at = now;
  updated_at = now;
}

abbrev pub with_organization : Organization → Directory → Directory
with_organization o d = record d { organizations = d.organizations ++ o ∷ [] }

abbrev pub insert_organization : Organization → Tx Organization
insert_organization o = gets (refuses_organization o) >>= λ refused.
    raise_if refused integrity_error >> (modify (with_organization o) >> pure o)

-- `add_organization` with the flush that follows it.
unfoldable pub add_organization : ℕ → String → String → ℕ → Tx Organization
add_organization id slug display_name now =
    insert_organization (new_organization id slug display_name now)

abbrev pub new_member : ℕ → ℕ → ℕ → ℕ → Membership
new_member id tenant_id user_id now = record {
  id = id;
  tenant_id = tenant_id;
  user_id = user_id;
  status = MembershipStatus.active;
  created_by_invitation_id = none;
  created_at = now;
  updated_at = now;
}

unfoldable pub add_active_membership : ℕ → ℕ → ℕ → ℕ → Tx Membership
add_active_membership id tenant_id user_id now =
    add_membership (new_member id tenant_id user_id now)
    >> pure (new_member id tenant_id user_id now)

pub record OrganizationView : Type 0 where
  pub id : ℕ
  pub slug : String
  pub display_name : String
  pub status : OrganizationStatus
  pub default_locale : String

unfoldable pub to_view : Organization → OrganizationView
to_view o = record {
  id = o.id;
  slug = o.slug;
  display_name = o.display_name;
  status = o.status;
  default_locale = o.default_locale;
}

unfoldable pub list_organizations : ℕ → Directory → List OrganizationView
list_organizations u d = map to_view (list_active_organizations_for_user u d)

abbrev view_found : Option Organization → Tx OrganizationView
view_found none = raise organization_not_found
view_found (some o) = pure (to_view o)

unfoldable pub get_organization : ℕ → ℕ → Tx OrganizationView
get_organization u o = gets (find_organization_for_active_member o u) >>= view_found

pub record OrganizationCreateRequest : Type 0 where
  pub slug : String
  pub display_name : String

-- The handler of `IntegrityError`.
abbrev pub as_slug_conflict : Error → Tx Organization
as_slug_conflict _ = raise organization_slug_conflict

-- `id` and `membership_id` are the keys that the database gives to the two rows.
abbrev pub create_with_role :
    ℕ → ℕ → ℕ → OrganizationCreateRequest → ℕ → Option Role → Tx OrganizationView
create_with_role id membership_id u request now none = raise owner_role_unavailable
create_with_role id membership_id u request now (some owner) =
    on_error (add_organization id request.slug request.display_name now) as_slug_conflict >>= λ o.
    add_active_membership membership_id o.id u now >>= λ m.
    add_membership_role m.id owner.id >> pure (to_view o)

unfoldable pub create_body : ℕ → ℕ → ℕ → OrganizationCreateRequest → ℕ → Tx OrganizationView
create_body id membership_id u request now =
    gets (find_global_system_role "owner") >>= create_with_role id membership_id u request now

unfoldable pub create_organization :
    ℕ → ℕ → ℕ → OrganizationCreateRequest → ℕ → Directory → Result OrganizationView × Directory
create_organization id membership_id u request now d =
    transaction (create_body id membership_id u request now) d

pub record OrganizationUpdateRequest : Type 0 where
  pub display_name : Option String
  pub default_locale : Option String

abbrev or_old : Option String → String → String
or_old none old = old
or_old (some new) old = new

abbrev pub with_settings : OrganizationUpdateRequest → ℕ → Organization → Organization
with_settings request now o = record o {
  display_name = or_old request.display_name o.display_name;
  default_locale = or_old request.default_locale o.default_locale;
  updated_at = now;
}

abbrev pub set_organization : ℕ → (Organization → Organization) → Directory → Directory
set_organization id f d = record d {
  organizations = update_where (is_organization id) f d.organizations;
}

abbrev pub update_found :
    ℕ → ℕ → OrganizationUpdateRequest → ℕ → Option Organization → Tx OrganizationView
update_found u id request now none = raise organization_not_found
update_found u id request now (some o) = resolve_tenant_membership u id >>= λ m.
    raise_if (not (any (str_eq settings_permission) m.permissions)) organization_settings_forbidden
    >> (modify (set_organization o.id (with_settings request now))
        >> pure (to_view (with_settings request now o)))

unfoldable pub update_body : ℕ → ℕ → OrganizationUpdateRequest → ℕ → Tx OrganizationView
update_body u id request now =
    gets (find_organization_for_active_member id u) >>= update_found u id request now

unfoldable pub update_organization :
    ℕ → ℕ → OrganizationUpdateRequest → ℕ → Directory → Result OrganizationView × Directory
update_organization u id request now d = transaction (update_body u id request now) d
