-- ===== src/Auth/Account.antt =====
-- `setup2FA`, `enable2FA`, `disable2FA` and `acceptInvite` of modules/auth/auth.service.ts. The
-- secret that speakeasy draws is an argument; the QR code is left out.
use Prim.Native.String.{len}
use edu_crm_backend.Base.{not, ltb, ◌&&◌, str_eq, some, true, false, none, String, Bool}
use edu_crm_backend.Auth.Store.{update_user, Libraries, Store}
use edu_crm_backend.Users.Entity.{truthy, has_user_id, user_live, User}
use edu_crm_backend.Base.Action.{
  of_result, pure, not_found, bad_request, or_throw, throw_if, gets, ◌>>◌, ◌>>=◌, Action,
}
use edu_crm_backend.Shared.Enums.{UserStatus}
use edu_crm_backend.Database.{Instant, Uuid}

abbrev pub set_secret : String → User → User
set_secret secret u = record u { two_fa_secret = some secret }

abbrev pub set_two_fa : User → User
set_two_fa u = record u { two_fa_enabled = true }

abbrev pub clear_two_fa : User → User
clear_two_fa u = record u { two_fa_enabled = false; two_fa_secret = some "" }

-- `status = 'pending' AND deleted_at IS NULL AND metadata->>'inviteToken' = $1`
abbrev pub invited_by : String → User → Bool
invited_by token u =
    elim u.invite_token [ none ↦ false | some t ↦ str_eq t token ]
    && (elim u.status [ UserStatus.pending ↦ true | _ ↦ false ] && user_live u)

abbrev pub set_invited : User → User
set_invited u = record u {
  status = UserStatus.active;
  is_email_verified = true;
  invite_token = none;
}

module _ (lib : Libraries) where
  pub setup_two_fa : Uuid → String → Action Store String
  setup_two_fa user_id secret = do
    found ← gets (λ s. lib.users.find_one (has_user_id user_id) s.users)
    or_throw found (not_found "User not found")
    update_user lib user_id (set_secret secret)
    pure secret

  pub enable_two_fa : Uuid → String → Instant → Action Store (Unit {0})
  enable_two_fa user_id token now = do
    found ← gets (λ s. lib.users.find_one (has_user_id user_id) s.users)
    user ← or_throw found (bad_request "2FA not initialized")
    throw_if (not (truthy user.two_fa_secret)) (bad_request "2FA not initialized")
    valid ← of_result (lib.totp_verify user.two_fa_secret token now)
    throw_if (not valid) (bad_request "Invalid 2FA token")
    update_user lib user_id set_two_fa

  pub disable_two_fa : Uuid → Action Store (Unit {0})
  disable_two_fa user_id = update_user lib user_id clear_two_fa

  -- The row is selected by SQL, which returns any one of the rows that fit.
  pub accept_invite : String → Action Store String
  accept_invite token = do
    throw_if (ltb (len token) 16) (bad_request "Invalid invitation token")
    found ← gets (λ s. lib.users.find_one (invited_by token) s.users)
    user ← or_throw found (not_found "Invalid or expired invitation token")
    update_user lib user.id set_invited
    pure "Invitation accepted. You can now log in."
