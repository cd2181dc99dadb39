-- ===== src/Access/MemberUpdate.antt =====
-- `update_member` of services/api/app/modules/members/service.py, as a whole.
use serviq.Common.{
  ℕ, List, ap, ◌∙◌, ◌≤◌, ◌≡◌, refl, ◌⊎◌, inl, inr, Option, none, some, Bool, true, false, not,
  arith, any, find_where,
}
use serviq.Common.Tx.Preserves.{
  Preserves, Preserves-read, Preserves-raise, Preserves-raise_if, Preserves-bind,
  Preserves-transaction,
}
use serviq.Access.Rows.{
  Directory, Membership, Role, User, Tx, ok, gets, bind_inv, raise_if_inv, ◌>>=◌, ◌>>◌, pure,
  membership_role_invalid, membership_access_not_found,
}
use serviq.Access.Tenancy.{is_organization}
use serviq.Access.Reads.{may_manage-Preserves}
use serviq.Access.Invitations.{find_assignable_roles, ids_of, same_set}
use serviq.Access.Members.{
  MemberView, is_membership, count_active_owners, list_membership_roles, find_tenant_membership,
  find_workforce_user, view_of, MemberUpdateRequest, next_roles, next_status, removes_active_owner,
  guard_last_owner, write_roles, write_status, membership_view, update_target, update_found,
  update_body, update_member,
}
use serviq.Access.Keeping.{HasOwner, with_update}
use serviq.Access.LastOwner.{
  next_of, written, status_update, write_roles_inv, write_status_inv, update_target-HasOwner,
}

module _ {P : Directory → Type 0} where
  pub view-Preserves : (m : Membership) → Preserves P (membership_view m)
  unfolding membership_view
  view-Preserves m = Preserves-bind _ _ (Preserves-read (find_workforce_user m.user_id)) found
    where
      found : (u : Option User) → Preserves P (view_of m u)
      found none = Preserves-raise _
      found (some u) = Preserves-read _

next_roles_inv :
    (x o : ℕ) (request : Option _) (d d' : Directory) (next : _)
    → next_roles o (list_membership_roles x d) request d ≡ ok (next, d')
    → (next_of x o request d ≡ next) × (d ≡ d')
next_roles_inv x o none d d' next h = (cc, cc)
next_roles_inv x o (some ids) d d' next h =
    let (_, e) =
      raise_if_inv (not (same_set (ids_of (find_assignable_roles o ids d)) ids))
        membership_role_invalid (pure (find_assignable_roles o ids d)) d (next, d') h in
    (cc, cc)

guard_inv :
    (o : ℕ) (removes : Bool) (d d' : Directory) (a : Unit {0})
    → guard_last_owner o removes d ≡ ok (a, d')
    → ((removes ≡ false) ⊎ (2 ≤ count_active_owners o d)) × (d ≡ d')
unfolding guard_last_owner
guard_inv o false d d' a h = (inl refl, cc)
guard_inv o true d d' a h = (inr (ground (arith, h)), ground (arith, h))

module _ (t : ℕ) where
  update_target-Preserves :
      (o now id : ℕ) (request : MemberUpdateRequest) (target : Membership) (d d' : Directory)
      (v : MemberView)
      → find_where (is_membership o id) d.memberships ≡ some target
      → HasOwner t d
      → update_target o now request target d ≡ ok (v, d')
      → HasOwner t d'
  unfolding update_target
  update_target-Preserves o now id request target d d' v found p h =
      let (next, d1, chose, h1) =
        bind_inv (next_roles o current request.role_ids) guarded d (v, d') h in
      let (e, same) = next_roles_inv target.id o request.role_ids d d1 next chose in
      chosen (ap (λ n. guarded n d) e ∙ ap (guarded next) same ∙ h1)
    where
      current : List Role
      current = list_membership_roles target.id d

      written_view : List Role → Tx MemberView
      written_view next =
          write_roles target.id (ids_of next) request.role_ids
          >> (write_status target now request.status >>= membership_view)

      guarded : List Role → Tx MemberView
      guarded next =
          guard_last_owner o
            (removes_active_owner target (next_status target request.status) current next)
          >> written_view next

      next_roles_found : List Role
      next_roles_found = next_of target.id o request.role_ids d

      is_removal : Bool
      is_removal =
          removes_active_owner target (next_status target request.status) current next_roles_found

      chosen : guarded next_roles_found d ≡ ok (v, d') → HasOwner t d'
      chosen h1 =
          let (a, d2, guard, h2) =
            bind_inv (guard_last_owner o is_removal) (λ _. written_view next_roles_found) d (v, d')
              h1 in
          let (allowed, same) = guard_inv o is_removal d d2 a guard in
          let (b, d3, wrote, h3) =
            bind_inv (write_roles target.id (ids_of next_roles_found) request.role_ids)
              (λ _. write_status target now request.status >>= membership_view) d (v, d')
              (ap (written_view next_roles_found) same ∙ h2) in
          let (m, d4, set, h4) =
            bind_inv (write_status target now request.status) membership_view d3 (v, d') h3 in
          let end_eq : with_update target.id (status_update target now request.status)
                (written target.id (ids_of next_roles_found) request.role_ids d)
              ≡ d4 =
            ap (with_update target.id (status_update target now request.status))
              (write_roles_inv target.id (ids_of next_roles_found) request.role_ids d d3 b wrote)
            ∙ write_status_inv target now request.status d3 d4 m set in
          (view-Preserves {P = HasOwner t} m).run d4 v d'
            (rw end_eq at (update_target-HasOwner t o now id request target d found allowed p)) h4

  update_body-Preserves :
      (u o id : ℕ) (request : MemberUpdateRequest) (now : ℕ)
      → Preserves (HasOwner t) (update_body u o id request now)
  unfolding update_body find_tenant_membership
  update_body-Preserves u o id request now =
      Preserves-bind _ _ (Preserves-read (λ d. any (is_organization o) d.organizations)) (λ locked.
        Preserves-bind _ _ (Preserves-raise_if (not locked) membership_access_not_found)
          (λ _. Preserves-bind _ _ (may_manage-Preserves u o) (λ _. target_step)))
    where
      target_step :
          Preserves (HasOwner t) (gets (find_tenant_membership o id) >>= update_found o now request)
      target_step = record {
        run = λ d v d' p h. step d v d' p (find_where (is_membership o id) d.memberships) refl h;
      }
        where
          step :
              (d : Directory) (v : MemberView) (d' : Directory)
              → HasOwner t d
              → (found : Option Membership) → find_where (is_membership o id) d.memberships ≡ found
              → update_found o now request found d ≡ ok (v, d')
              → HasOwner t d'
          step d v d' p none e h = absurd (cc)
          step d v d' p (some target) e h =
              update_target-Preserves o now id request target d d' v e p h

-- Whatever a caller asks for, an organization with an active owner still has one after
-- `update_member`, whether the update is refused, fails half way or commits. This holds for the
-- caller's organization and for every other one, where the ids of the memberships are distinct,
-- and they stay so.
pub update_member-HasOwner :
    (t u o membership_id now : ℕ) (request : MemberUpdateRequest) (d : Directory)
    → HasOwner t d
    → HasOwner t (update_member u o membership_id request now d).1
unfolding update_member
update_member-HasOwner t u o membership_id now request d =
    Preserves-transaction (update_body u o membership_id request now)
      (update_body-Preserves t u o membership_id request now) d
