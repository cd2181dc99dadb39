-- ===== src/Access/Workforce.antt =====
-- services/api/app/modules/workforce/repository.py and service.py.
use serviq.Common.{
  ℕ, String, Option, none, some, Bool, not, ◌&&◌, ◌||◌, List, [], ◌∷◌, ◌++◌, ◌==◌, str_eq,
  if◌then◌else◌, find_where, update_where, any,
}
use serviq.Access.Rows.{
  Directory, User, UserStatus, is_enabled, Error, Tx, Result, err, ◌>>=◌, ◌>>◌, pure, gets, modify,
  raise, raise_if, transaction, on_error, disabled_workforce_user, workforce_identity_profile,
  integrity_error,
}
use serviq.Access.Email.{text_eq, is_empty}
use serviq.Access.Tenancy.{is_user}
use serviq.Access.Invitations.{VerifiedWorkforceIdentity}

abbrev pub has_identity : String → String → User → Bool
has_identity issuer subject u = str_eq u.oidc_issuer issuer && str_eq u.oidc_subject subject

unfoldable pub find_user_by_oidc_identity : String → String → Directory → Option User
find_user_by_oidc_identity issuer subject d = find_where (has_identity issuer subject) d.users

abbrev pub refuses_user : User → Directory → Bool
refuses_user u d =
    any (λ x. x.id == u.id) d.users || any (has_identity u.oidc_issuer u.oidc_subject) d.users

abbrev pub new_user : ℕ → String → String → List ℕ → List ℕ → ℕ → User
new_user id issuer subject email display_name now = record {
  id = id;
  oidc_issuer = issuer;
  oidc_subject = subject;
  email = email;
  display_name = display_name;
  status = UserStatus.active;
  created_at = now;
  updated_at = now;
}

abbrev pub with_user : User → Directory → Directory
with_user u d = record d { users = d.users ++ u ∷ [] }

abbrev pub insert_user : User → Tx User
insert_user u = gets (refuses_user u) >>= λ refused.
    raise_if refused integrity_error >> (modify (with_user u) >> pure u)

-- `add_user` with the flush that follows it.
unfoldable pub add_user : ℕ → String → String → List ℕ → List ℕ → ℕ → Tx User
add_user id issuer subject email display_name now =
    insert_user (new_user id issuer subject email display_name now)

pub record InternalWorkforceUser : Type 0 where
  pub id : ℕ
  pub oidc_issuer : String
  pub oidc_subject : String
  pub email : List ℕ
  pub display_name : List ℕ
  pub status : UserStatus

unfoldable pub to_internal_user : User → InternalWorkforceUser
to_internal_user u = record {
  id = u.id;
  oidc_issuer = u.oidc_issuer;
  oidc_subject = u.oidc_subject;
  email = u.email;
  display_name = u.display_name;
  status = u.status;
}

abbrev pub renamed : Option (List ℕ) → List ℕ → List ℕ
renamed none old = old
renamed (some new) old = new

-- `changed`
abbrev pub is_changed : List ℕ → Option (List ℕ) → User → Bool
is_changed email display_name u =
    not (text_eq u.email email)
    || not (text_eq u.display_name (renamed display_name u.display_name))

abbrev pub with_profile : List ℕ → Option (List ℕ) → ℕ → User → User
with_profile email display_name now u = record u {
  email = email;
  display_name = renamed display_name u.display_name;
  updated_at = now;
}

abbrev pub set_user : ℕ → (User → User) → Directory → Directory
set_user id f d = record d { users = update_where (is_user id) f d.users }

unfoldable pub sync_active_user : User → List ℕ → Option (List ℕ) → ℕ → Tx User
sync_active_user u email display_name now =
    raise_if (not (is_enabled u.status)) disabled_workforce_user
    >> (if is_changed email display_name u
        then modify (set_user u.id (with_profile email display_name now))
          >> pure (with_profile email display_name now u)
        else pure u)

-- `identity.display_name or email`
abbrev pub name_or_email : Option (List ℕ) → List ℕ → List ℕ
name_or_email none email = email
name_or_email (some name) email = if is_empty name then email else name

-- The row that won the race, or the integrity error again.
abbrev pub sync_winner : List ℕ → Option (List ℕ) → ℕ → Error → Option User → Tx User
sync_winner email display_name now e none = raise e
sync_winner email display_name now e (some u) = sync_active_user u email display_name now

abbrev pub upsert_found : ℕ → VerifiedWorkforceIdentity → List ℕ → ℕ → Option User → Tx User
upsert_found id identity email now (some u) = sync_active_user u email identity.display_name now
upsert_found id identity email now none =
    on_error
      (add_user id identity.issuer identity.subject email
        (name_or_email identity.display_name email) now)
      (λ e.
        gets (find_user_by_oidc_identity identity.issuer identity.subject)
        >>= sync_winner email identity.display_name now e)

unfoldable pub upsert_body : ℕ → VerifiedWorkforceIdentity → List ℕ → ℕ → Tx InternalWorkforceUser
upsert_body id identity email now =
    gets (find_user_by_oidc_identity identity.issuer identity.subject)
    >>= upsert_found id identity email now
    >>= λ u. pure (to_internal_user u)

abbrev pub upsert_with_email :
    ℕ
    → VerifiedWorkforceIdentity
    → ℕ
    → Option (List ℕ)
    → Directory
    → Result InternalWorkforceUser × Directory
upsert_with_email id identity now none d = (err workforce_identity_profile, d)
upsert_with_email id identity now (some email) d = transaction (upsert_body id identity email now) d

-- `id` is the key that the database gives to a new row.
unfoldable pub upsert_verified_workforce_user :
    ℕ → VerifiedWorkforceIdentity → ℕ → Directory → Result InternalWorkforceUser × Directory
upsert_verified_workforce_user id identity now d =
    upsert_with_email id identity now identity.email d
