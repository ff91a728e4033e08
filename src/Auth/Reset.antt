-- ===== src/Auth/Reset.antt =====
-- `forgotPassword`, `verifyOtp`, `resetPassword` and `changePassword` of
-- modules/auth/auth.service.ts. The random code and token are arguments.
use edu_crm_backend.Base.{
  ◌&&◌, not, ◌+◌, Option, or_else, some, false, ltb, none, ◌*◌, str_eq, String, ℕ, Bool,
}
use edu_crm_backend.Auth.Store.{otp_mail, update_user, Libraries, Store, emit}
use edu_crm_backend.Users.Entity.{truthy, has_user_id, User}
use edu_crm_backend.Database.{Uuid, Instant}
use edu_crm_backend.Base.Action.{
  throw_if, bad_request, not_found, ◌>>◌, or_throw, gets, pure, ◌>>=◌, Action,
}

abbrev pub fifteen_minutes : ℕ
fifteen_minutes = 15 * 60 * 1000

abbrev pub ten_minutes : ℕ
ten_minutes = 10 * 60 * 1000

abbrev pub has_email : String → User → Bool
has_email email u = str_eq u.email email

-- `user.otpCode = :token`; a null column equals nothing.
abbrev pub has_code : String → User → Bool
has_code token u = elim u.otp_code [ none ↦ false | some c ↦ str_eq c token ]

-- `new Date() > user.otpExpiresAt`, where null counts as the epoch.
abbrev pub code_expired : User → Instant → Bool
code_expired u now = ltb (or_else u.otp_expires_at 0) now

abbrev pub set_code : String → Instant → User → User
set_code code until u = record u { otp_code = some code; otp_expires_at = some until }

abbrev pub set_reset : String → Instant → User → User
set_reset password now u = record u {
  password = password;
  otp_code = some "";
  otp_expires_at = some now;
}

abbrev pub set_password : String → User → User
set_password password u = record u { password = password }

module _ (lib : Libraries) where
  unfoldable pub send_code : Option User → String → Instant → Action Store (Unit {0})
  send_code none otp now = pure tt
  send_code (some user) otp now = do
    update_user lib user.id (set_code otp (now + fifteen_minutes))
    emit (otp_mail user.email otp user.first_name)

  unfoldable pub forgot_password : String → String → Instant → Action Store (Unit {0})
  unfolding send_code
  forgot_password email otp now = do
    found ← gets (λ s. lib.users.find_one (has_email email) s.users)
    send_code found otp now

  pub verify_otp : String → String → String → Instant → Action Store String
  verify_otp email otp reset_token now = do
    found ← gets (λ s. lib.users.find_one (has_email email) s.users)
    user ← or_throw found (bad_request "Invalid OTP")
    throw_if (not (truthy user.otp_code && has_code otp user)) (bad_request "Invalid OTP")
    throw_if (code_expired user now) (bad_request "OTP has expired")
    update_user lib user.id (set_code reset_token (now + ten_minutes))
    pure reset_token

  unfoldable pub reset_password : String → String → ℕ → Instant → Action Store (Unit {0})
  reset_password token password salt now = do
    found ← gets (λ s. lib.users.find_one (has_code token) s.users)
    user ← or_throw found (bad_request "Invalid or expired reset token")
    throw_if (code_expired user now) (bad_request "Reset token has expired")
    update_user lib user.id (set_reset (lib.hash salt password) now)

  pub change_password : Uuid → String → String → ℕ → Action Store (Unit {0})
  change_password user_id current_password new_password salt = do
    found ← gets (λ s. lib.users.find_one (has_user_id user_id) s.users)
    user ← or_throw found (not_found "User not found")
    throw_if (not (lib.compare current_password user.password))
        (bad_request "Current password is incorrect")
    update_user lib user_id (set_password (lib.hash salt new_password))
