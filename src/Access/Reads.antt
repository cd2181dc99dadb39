-- ===== src/Access/Reads.antt =====
-- The permission checks of services/api/app/modules change no table, whatever they answer.
use serviq.Common.{ℕ, Option, none, some}
use serviq.Common.Tx.Preserves.{
  Preserves, Preserves-gets, Preserves-read, Preserves-raise, Preserves-raise_if, Preserves-bind,
  Preserves-on_error,
}
use serviq.Access.Rows.{Directory}
use serviq.Access.Tenancy.{find_membership, resolve_found, resolve_tenant_membership}
use serviq.Access.Invitations as Invitations
use serviq.Access.Members as Members

module _ {P : Directory → Type 0} where
  pub resolve-Preserves : (u t : ℕ) → Preserves P (resolve_tenant_membership u t)
  unfolding resolve_tenant_membership
  resolve-Preserves u t =
      Preserves-gets (find_membership t u) (resolve_found t) (λ d p. found (find_membership t u d))
    where
      found : (o : Option _) → Preserves P (resolve_found t o)
      found none = Preserves-raise _
      found (some m) = Preserves-bind _ _ (Preserves-raise_if _ _) (λ _. Preserves-read _)

  pub may_invite-Preserves : (u o : ℕ) → Preserves P (Invitations.require_manage_permission u o)
  unfolding Invitations.require_manage_permission
  may_invite-Preserves u o =
      Preserves-bind _ _ (Preserves-on_error _ _ (resolve-Preserves u o) (λ _. Preserves-raise _))
        (λ m. Preserves-raise_if _ _)

  pub may_manage-Preserves : (u o : ℕ) → Preserves P (Members.require_manage_permission u o)
  unfolding Members.require_manage_permission
  may_manage-Preserves u o =
      Preserves-bind _ _ (Preserves-on_error _ _ (resolve-Preserves u o) (λ _. Preserves-raise _))
        (λ m. Preserves-raise_if _ _)
