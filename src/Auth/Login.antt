-- ===== src/Auth/Login.antt =====
-- `validateUser` and `login` of modules/auth/auth.service.ts. `now` stands for every reading of the
-- clock in one call.
use edu_crm_backend.Auth.Store.{auth_login, update_user, Libraries, Store, emit}
use edu_crm_backend.Base.{
  or_else, leb, not, if◌then◌else◌, ◌+◌, ◌==◌, ◌&&◌, str_eq, ltb, false, none, ◌*◌, some, Option, ℕ,
  String, Bool,
}
use edu_crm_backend.Users.Entity.{truthy, User}
use edu_crm_backend.Database.{Uuid, Instant}
use edu_crm_backend.Shared.Enums.{UserStatus}
use edu_crm_backend.Base.Action.{
  of_result, or_throw, gets, throw_if, ◌>>◌, ◌>>=◌, unauthorized, throw, pure, Action,
}
use edu_crm_backend.Auth.Tokens.{build_user_payload, generate_tokens, LoginResponse}

abbrev pub lock_minutes : ℕ
lock_minutes = 15 * 60 * 1000

-- `u.email = :email`, and the tenant where one is given
abbrev pub by_email : String → Option Uuid → User → Bool
by_email email none u = str_eq u.email email
by_email email (some t) u = str_eq u.email email && u.tenant_id == t

abbrev pub is_locked : User → Instant → Bool
is_locked u now = elim u.locked_until [ none ↦ false | some t ↦ ltb now t ]

abbrev pub set_attempts : ℕ → User → User
set_attempts n u = record u { login_attempts = n }

abbrev pub set_locked : ℕ → Instant → User → User
set_locked n t u = record u { login_attempts = n; locked_until = some t }

abbrev pub set_validated : Instant → User → User
set_validated now u = record u { login_attempts = 0; locked_until = none; last_login_at = some now }

abbrev pub set_logged_in : Instant → String → User → User
set_logged_in now ip u = record u {
  last_login_at = some now;
  last_login_ip = some ip;
  status = UserStatus.active;
}

pub record LoginDto : Type 0 where
  pub email : String
  pub password : String
  pub two_fa_token : Option String

-- The messages are those of the source, without the minutes left that a locked account is told.
module _ (lib : Libraries) where
  lock_account : User → Instant → Action Store (Option User)
  lock_account user now = do
    update_user lib user.id (set_locked (user.login_attempts + 1) (now + lock_minutes))
    throw (unauthorized "Account locked for 15 minutes due to too many failed attempts.")

  count_attempt : User → Action Store (Option User)
  count_attempt user = do
    update_user lib user.id (set_attempts (user.login_attempts + 1))
    pure none

  accept : User → Instant → Action Store (Option User)
  accept user now = do update_user lib user.id (set_validated now); pure (some user)

  -- The part of `validateUser` behind the query: a locked account is refused, a wrong password is
  -- counted and locks the account at the fifth, a right one clears the count.
  unfoldable pub validate_found : Option User → String → Instant → Action Store (Option User)
  unfolding lock_account count_attempt accept
  validate_found none password now = pure none
  validate_found (some user) password now = do
    throw_if (is_locked user now) (unauthorized "Account is locked.")
    if lib.compare password user.password
        then accept user now
        else if leb 5 (user.login_attempts + 1)
        then lock_account user now
        else count_attempt user

  unfoldable pub validate_user :
      String → String → Option Uuid → Instant → Action Store (Option User)
  unfolding validate_found
  validate_user email password tenant_id now = do
    found ← gets (λ s. lib.users.find_one (by_email email tenant_id) s.users)
    validate_found found password now

  -- The second factor. The column `two_fa_secret` is declared `select: false` and the query of
  -- `validateUser` does not ask for it, so `user.twoFaSecret` is `undefined` here.
  require_two_fa : Option String → Instant → Action Store (Unit {0})
  require_two_fa token now = do
    throw_if (not (truthy token)) (unauthorized "2FA token is required")
    valid ← of_result (lib.totp_verify none (or_else token "") now)
    throw_if (not valid) (unauthorized "Invalid 2FA token")

  unfoldable pub check_two_fa : User → Option String → Instant → Action Store (Unit {0})
  unfolding require_two_fa
  check_two_fa user token now = if user.two_fa_enabled then require_two_fa token now else pure tt

  -- The statuses that `login` refuses.
  unfoldable pub check_status : UserStatus → Action Store (Unit {0})
  check_status UserStatus.suspended = throw (unauthorized "Your account has been suspended")
  check_status UserStatus.blocked = throw (unauthorized "Your account has been blocked")
  check_status UserStatus.pending =
      throw (
        unauthorized
          "Taklifingizni qabul qiling. Emailingizga yuborilgan taklif havolasini bosing.")
  check_status _ = pure tt

  unfoldable pub login : LoginDto → String → ℕ → Instant → Action Store LoginResponse
  unfolding validate_user check_two_fa check_status
  login dto ip salt now = do
    found ← validate_user dto.email dto.password none now
    user ← or_throw found (unauthorized "Invalid email or password")
    check_status user.status
    check_two_fa user dto.two_fa_token now
    tokens ← generate_tokens lib user salt now
    update_user lib user.id (set_logged_in now ip)
    emit (auth_login user.id ip)
    me ← build_user_payload lib user
    pure (record { tokens = tokens; user = me })
