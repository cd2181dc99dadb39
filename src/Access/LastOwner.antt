-- ===== src/Access/LastOwner.antt =====
-- `update_member` of services/api/app/modules/members/service.py and the last active owner.
use serviq.Common.{
  ℕ, ◌≤◌, ◌≡◌, refl, sym, ap, append_nil, append_assoc, ◌∙◌, ◌⊎◌, inl, inr, Option, none, some,
  Bool, true, false, ◌&&◌, List, [], ◌∷◌, ◌++◌, arith, ◌==◌, Bool-cases, if◌then◌else◌, count_where,
  find_where, filter_where, delete_where, update_where, any, any_imp, any-append, any-delete_where,
  any-filter_where, any-sort_by, find_where_holds,
}
use serviq.Access.Rows.{
  Directory, Membership, MembershipStatus, MembershipRole, Role, Error, is_active_status, ok, ◌>>◌,
  pure, modify, bind_inv, checked_inv, integrity_error,
}
use serviq.Access.Tenancy.{maps, has_role, refuses_mapping, add_membership_role}
use serviq.Access.Invitations.{mem, ids_of, role_before, find_assignable_roles, is_assignable}
use serviq.Access.Members.{
  is_owner_role, is_membership, is_active_owner, count_active_owners, add_membership_roles,
  clear_roles, replace_membership_roles, list_membership_roles, MemberUpdateRequest, contains_owner,
  next_status, removes_active_owner, same_status, with_status, write_roles, write_status,
}
use serviq.Access.Owners.{
  has_id, IsKeyed, other, count_but_one, others_survive, count_others, found_survives, has_role_imp,
  mappings, any-mappings, any_with_id,
}
use serviq.Access.Keeping.{HasOwner, with_mapping, with_update, update-IsKeyed}

-- What `write_roles` leaves in `membership_roles`.
abbrev with_mappings : List MembershipRole → Directory → Directory
with_mappings xs d = record d { membership_roles = xs }

add_membership_roles_inv :
    (m : ℕ) (rs : List ℕ) (d d' : Directory) (a : Unit {0})
    → add_membership_roles m rs d ≡ ok (a, d')
    → with_mappings (d.membership_roles ++ mappings m rs) d ≡ d'
unfolding add_membership_role
add_membership_roles_inv m [] d d' a h =
    ap (λ xs. with_mappings xs d) (append_nil d.membership_roles) ∙ cc
add_membership_roles_inv m (r ∷ rs) d d' a h =
    let (b, d1, one, rest) =
      bind_inv (add_membership_role m r) (λ _. add_membership_roles m rs) d (a, d') h in
    let (_, wrote) =
      checked_inv (refuses_mapping m r) integrity_error (with_mapping m r) d d1 b one in
    ap (λ xs. with_mappings xs d)
      (sym (
        append_assoc d.membership_roles (record { membership_id = m; role_id = r } ∷ [])
          (mappings m rs)))
    ∙ ap (λ db. with_mappings (db.membership_roles ++ mappings m rs) db) wrote
    ∙ add_membership_roles_inv m rs d1 d' a rest

-- The next roles where they are found.
abbrev pub next_of : ℕ → ℕ → Option (List ℕ) → Directory → List Role
next_of x o none d = list_membership_roles x d
next_of x o (some ids) d = find_assignable_roles o ids d

-- The mapping rows after `replace_membership_roles`.
abbrev replaced : ℕ → List ℕ → Directory → List MembershipRole
replaced x ids d = delete_where (λ r. r.membership_id == x) d.membership_roles ++ mappings x ids

abbrev mapping_rows : ℕ → List ℕ → Option (List ℕ) → Directory → List MembershipRole
mapping_rows x ids none d = d.membership_roles
mapping_rows x ids (some _) d = replaced x ids d

abbrev pub written : ℕ → List ℕ → Option (List ℕ) → Directory → Directory
written x ids request d = with_mappings (mapping_rows x ids request d) d

pub write_roles_inv :
    (x : ℕ) (ids : List ℕ) (request : Option (List ℕ)) (d d' : Directory) (a : Unit {0})
    → write_roles x ids request d ≡ ok (a, d')
    → written x ids request d ≡ d'
unfolding replace_membership_roles
write_roles_inv x ids none d d' a h = cc
write_roles_inv x ids (some _) d d' a h = add_membership_roles_inv x ids (clear_roles x d) d' a h

-- The mapping rows of the other memberships stay.
others_written :
    (x : ℕ) (ids : List ℕ) (request : Option (List ℕ)) (d : Directory) (m r : ℕ)
    → (m == x) ≡ false
    → any (maps m r) d.membership_roles ≡ true
    → any (maps m r) (written x ids request d).membership_roles ≡ true
others_written x ids none d m r e h = h
others_written x ids (some _) d m r e h = ground (
  arith,
  any-append (maps m r) (delete_where (λ r. r.membership_id == x) d.membership_roles)
      (mappings x ids),
  any-delete_where (maps m r) (λ r. r.membership_id == x) d.membership_roles
      (λ y b. ground (arith, e, b)) h,
)

any_filter_true :
    (p q : Role → Bool) (rs : List Role)
    → any p (filter_where q rs) ≡ true
    → any (λ r. p r && q r) rs ≡ true
any_filter_true p q rs h = sym (any-filter_where p q rs) ∙ h

-- An owner role among the next ones leaves the target an owner.
owner_written :
    (x o : ℕ) (next : List Role) (request : Option (List ℕ)) (d : Directory)
    → next_of x o request d ≡ next
    → contains_owner next ≡ true
    → has_role is_owner_role x (written x (ids_of next) request d) ≡ true
unfolding list_membership_roles find_assignable_roles
owner_written x o next none d e h =
    any_filter_true is_owner_role (λ r. any (maps x r.id) d.membership_roles) d.roles
      (ground (
        arith,
        h,
        e,
        any-sort_by role_before is_owner_role
            (filter_where (λ r. any (maps x r.id) d.membership_roles) d.roles),
      ))
owner_written x o next (some ids) d e h =
    let chosen : any named (find_assignable_roles o ids d) ≡ true =
      rw e (any_with_id is_owner_role (ids_of next) next (λ r k. k) h) in
    any_imp (λ r. named r && (mem r.id ids && is_assignable o r))
      (λ r. is_owner_role r && any (maps x r.id) (replaced x (ids_of next) d)) d.roles
      (λ r k. ground (
        arith,
        k,
        any-mappings x r.id (ids_of next),
        any-append (maps x r.id) (delete_where (λ y. y.membership_id == x) d.membership_roles)
            (mappings x (ids_of next)),
      ))
      (any_filter_true named (λ r. mem r.id ids && is_assignable o r) d.roles chosen)
  where
    named : Role → Bool
    named r = is_owner_role r && mem r.id (ids_of next)

abbrev pub status_update : Membership → ℕ → Option MembershipStatus → Membership → Membership
status_update target now none m = m
status_update target now (some s) m = if same_status s target.status then m else with_status s now m

update_none :
    (x : ℕ) (f : Membership → Membership) (ms : List Membership)
    → ((m : Membership) → f m ≡ m)
    → update_where (has_id x) f ms ≡ ms
update_none x f [] h = refl
update_none x f (m ∷ ms) h = ground (arith, h m, update_none x f ms h)

write_if :
    (b : Bool) (x : ℕ) (f : Membership → Membership) (m n r : Membership) (d d' : Directory)
    → (if b then pure {E = Error} m else (modify (with_update x f) >> pure n)) d ≡ ok (r, d')
    → with_update x (λ y. if b then y else f y) d ≡ d'
write_if true x f m n r d d' h =
    ap (λ ms. record d { memberships = ms }) (update_none x (λ y. y) d.memberships (λ y. refl)) ∙ cc
write_if false x f m n r d d' h = cc

-- After `write_status` the rows with the target's id have the new status, if it is new.
pub write_status_inv :
    (target : Membership) (now : ℕ) (status : Option MembershipStatus) (d d' : Directory)
    (m : Membership)
    → write_status target now status d ≡ ok (m, d')
    → with_update target.id (status_update target now status) d ≡ d'
write_status_inv target now none d d' m h =
    ap (λ ms. record d { memberships = ms })
      (update_none target.id (λ x. x) d.memberships (λ x. refl))
    ∙ cc
write_status_inv target now (some s) d d' m h =
    write_if (same_status s target.status) target.id (with_status s now) target
      (with_status s now target) m d d' h

status_kept :
    (target : Membership) (now : ℕ) (status : Option MembershipStatus) (t : ℕ) (d d' : Directory)
    → (target.tenant_id == t) ≡ true
    → is_active_status target.status ≡ true
    → is_active_status (next_status target status) ≡ true
    → has_role is_owner_role target.id d' ≡ true
    → is_active_owner t d' (status_update target now status target) ≡ true
status_kept target now none t d d' h k l r = ground (arith, h, k, r)
status_kept target now (some s) t d d' h k l r = ground (arith, h, k, l, r)

owner-contains_owner :
    (x : ℕ) (d : Directory)
    → has_role is_owner_role x d ≡ contains_owner (list_membership_roles x d)
unfolding list_membership_roles
owner-contains_owner x d = sym (
    any-sort_by role_before is_owner_role
      (filter_where (λ r. any (maps x r.id) d.membership_roles) d.roles)
    ∙ any-filter_where is_owner_role (λ r. any (maps x r.id) d.membership_roles) d.roles)

module _ (t o now id : ℕ) (request : MemberUpdateRequest) (target : Membership)
    (d : Directory) where
  abbrev next_list : List Role
  next_list = next_of target.id o request.role_ids d

  -- Whether the guard has to look at the number of owners.
  abbrev removes : Bool
  removes =
      removes_active_owner target (next_status target request.status)
        (list_membership_roles target.id d) next_list

  abbrev after_roles : Directory
  after_roles = written target.id (ids_of next_list) request.role_ids d

  abbrev after : Directory
  after = with_update target.id (status_update target now request.status) after_roles

  others_keep :
      (m : Membership)
      → has_id target.id m ≡ false
      → is_active_owner t d m ≡ true
      → is_active_owner t after m ≡ true
  others_keep m e h = ground (
    arith,
    h,
    has_role_imp is_owner_role m.id d after refl
        (λ r. others_written target.id (ids_of next_list) request.role_ids d m.id r e),
  )

  target_keeps :
      removes ≡ false
      → is_active_owner t d target ≡ true
      → is_active_owner t after (status_update target now request.status target) ≡ true
  target_keeps kept h =
      status_kept target now request.status t d after (ground (arith, h)) (ground (arith, h))
        (ground (arith, h, kept, owner-contains_owner target.id d))
        (owner_written target.id o next_list request.role_ids d refl
          (ground (arith, h, kept, owner-contains_owner target.id d)))

  id_kept :
      (m : Membership) (status : Option MembershipStatus)
      → (status_update target now status m).id ≡ m.id
  id_kept m none = refl
  id_kept m (some s) = ground arith

  pub update_target-HasOwner :
      find_where (is_membership o id) d.memberships ≡ some target
      → (removes ≡ false) ⊎ (2 ≤ count_active_owners o d)
      → HasOwner t d
      → HasOwner t after
  unfolding HasOwner count_active_owners IsKeyed
  update_target-HasOwner found guard (keyed, owned) = (
    update-IsKeyed target.id (status_update target now request.status) after_roles
        (λ m. id_kept m request.status) keyed,
    elim (Bool-cases (is_active_owner t d target)) [
      | inl h ↦ elim guard [
        | inl kept ↦
            found_survives (is_active_owner t d) target.id (is_membership o id)
              (is_active_owner t after) (status_update target now request.status) target
              d.memberships same_id found (target_keeps kept h)
        | inr two ↦ omega (
          arith,
          rw (same_tenant h) at two,
          count_but_one (is_active_owner t d) target.id d.memberships,
          keyed target.id,
          survive,
        )
      ]
      | inr h ↦ omega (
        arith,
        owned,
        count_others (is_active_owner t d) target.id (is_membership o id) target d.memberships
            same_id (keyed target.id) found h,
        survive,
      )
    ],
  )
    where
      survive :
          count_where (other (is_active_owner t d) target.id) d.memberships
          ≤ count_active_owners t after
      survive =
          others_survive (is_active_owner t d) target.id (is_active_owner t after)
            (status_update target now request.status) d.memberships others_keep

      is_target : is_membership o id target ≡ true
      is_target = find_where_holds (is_membership o id) d.memberships target found

      same_id : (m : Membership) → is_membership o id m ≡ true → has_id target.id m ≡ true
      same_id m h = ground (arith, h, is_target)

      same_tenant : is_active_owner t d target ≡ true → o ≡ t
      same_tenant h = ground (arith, h, is_target)
