-- ===== src/Auth/Session.antt =====
-- `refreshToken`, `logout` and `register` of modules/auth/auth.service.ts.
use text.Mathlib.Text.{starts_with}
use edu_crm_backend.Auth.Store.{
  user_registered, auth_logout, refresh, update_user, Libraries, Store, emit,
}
use edu_crm_backend.Base.{
  Bool, or_else, is_some, some, false, true, ◌&&◌, str_eq, not, if◌then◌else◌, none, ℕ, Option,
  String,
}
use edu_crm_backend.Base.Action.{
  internal, pure, modify, conflict, throw_if, or_throw, gets, ◌>>=◌, ◌>>◌, Action, unauthorized,
  Error,
}
use edu_crm_backend.Database.{Instant, Uuid}
use edu_crm_backend.Users.Entity.{truthy, has_user_id, User}
use edu_crm_backend.Auth.Tokens.{
  Tokens, build_user_payload, generate_tokens, set_refresh_token, LoginResponse,
}
use edu_crm_backend.Shared.Enums.{Language, Gender, uzbek, UserStatus, UserRole}
use edu_crm_backend.Auth.Login.{by_email}

-- The `try` of `refreshToken` turns every error of its body into this one.
abbrev pub invalid_refresh : Error
invalid_refresh = unauthorized "Invalid or expired refresh token"

pub record RegisterDto : Type 0 where
  pub first_name : String
  pub last_name : String
  pub email : String
  pub password : String
  pub phone : Option String
  pub tenant_id : Option Uuid

-- `User.hashPassword`, which runs before each insert: a password that does not look hashed is
-- hashed.
unfoldable pub hash_password : Libraries → ℕ → User → User
hash_password lib salt u =
    if not (str_eq u.password "") && not (starts_with u.password "$2b$")
    then record u { password = lib.hash salt u.password }
    else u

-- The entity that `register` hands to `save`, the other columns at their defaults.
unfoldable pub new_user : RegisterDto → Uuid → String → Uuid → Instant → User
new_user dto tenant_id password new_id now = record {
  id = new_id;
  created_at = now;
  deleted_at = none;
  tenant_id = tenant_id;
  first_name = dto.first_name;
  last_name = dto.last_name;
  middle_name = none;
  email = dto.email;
  phone = dto.phone;
  password = password;
  role = UserRole.student;
  status = UserStatus.active;
  gender = none;
  language = uzbek;
  avatar_url = none;
  date_of_birth = none;
  address = none;
  city = none;
  timezone = none;
  is_email_verified = true;
  is_phone_verified = false;
  two_fa_enabled = false;
  two_fa_secret = none;
  refresh_token = none;
  last_login_at = none;
  last_login_ip = none;
  otp_code = none;
  otp_expires_at = none;
  custom_role_id = none;
  branch = none;
  invite_token = none;
  login_attempts = 0;
  locked_until = none;
  created_by = none;
}

-- The columns of a user without the password, the refresh token and the secret of the second factor.
pub record SafeUser : Type 0 where
  pub id : Uuid
  pub created_at : Instant
  pub deleted_at : Option Instant
  pub tenant_id : Uuid
  pub first_name : String
  pub last_name : String
  pub middle_name : Option String
  pub email : String
  pub phone : Option String
  pub role : UserRole
  pub status : UserStatus
  pub gender : Option Gender
  pub language : Language
  pub avatar_url : Option String
  pub date_of_birth : Option Instant
  pub address : Option String
  pub city : Option String
  pub timezone : Option String
  pub is_email_verified : Bool
  pub is_phone_verified : Bool
  pub two_fa_enabled : Bool
  pub last_login_at : Option Instant
  pub last_login_ip : Option String
  pub otp_code : Option String
  pub otp_expires_at : Option Instant
  pub custom_role_id : Option Uuid
  pub branch : Option String
  pub invite_token : Option String
  pub login_attempts : ℕ
  pub locked_until : Option Instant
  pub created_by : Option Uuid

-- `const { password, refreshToken, twoFaSecret, ...safeUser } = savedUser`
unfoldable pub safe_user : User → SafeUser
safe_user u = record {
  id = u.id;
  created_at = u.created_at;
  deleted_at = u.deleted_at;
  tenant_id = u.tenant_id;
  first_name = u.first_name;
  last_name = u.last_name;
  middle_name = u.middle_name;
  email = u.email;
  phone = u.phone;
  role = u.role;
  status = u.status;
  gender = u.gender;
  language = u.language;
  avatar_url = u.avatar_url;
  date_of_birth = u.date_of_birth;
  address = u.address;
  city = u.city;
  timezone = u.timezone;
  is_email_verified = u.is_email_verified;
  is_phone_verified = u.is_phone_verified;
  two_fa_enabled = u.two_fa_enabled;
  last_login_at = u.last_login_at;
  last_login_ip = u.last_login_ip;
  otp_code = u.otp_code;
  otp_expires_at = u.otp_expires_at;
  custom_role_id = u.custom_role_id;
  branch = u.branch;
  invite_token = u.invite_token;
  login_attempts = u.login_attempts;
  locked_until = u.locked_until;
  created_by = u.created_by;
}

pub record Registered : Type 0 where
  pub tokens : Tokens
  pub user : SafeUser

module _ (lib : Libraries) where
  -- The row whose refresh token is held against the token, or the refusal.
  unfoldable pub refresh_body : String → ℕ → Instant → Action Store LoginResponse
  refresh_body token salt now = do
    payload ← or_throw (lib.verify refresh token now) invalid_refresh
    found ← gets (λ s. lib.users.find_one (has_user_id payload.sub) s.users)
    user ← or_throw found invalid_refresh
    throw_if (not (truthy user.refresh_token)) invalid_refresh
    throw_if (not (lib.compare token (or_else user.refresh_token ""))) invalid_refresh
    tokens ← generate_tokens lib user salt now
    me ← build_user_payload lib user
    pure (record { tokens = tokens; user = me })

  unfoldable pub refresh_token : String → ℕ → Instant → Action Store LoginResponse
  unfolding refresh_body
  refresh_token token salt now = refresh_body token salt now

  unfoldable pub logout : Uuid → Action Store (Unit {0})
  logout user_id = do update_user lib user_id (set_refresh_token ""); emit (auth_logout user_id)

  -- `register`: the password is hashed by the service, and the entity's hook sees the hash. An absent
  -- tenant is sought as the empty text, which Postgres refuses for a column of type uuid.
  unfoldable pub register : RegisterDto → Uuid → ℕ → ℕ → ℕ → Instant → Action Store Registered
  unfolding hash_password new_user safe_user
  register dto new_id salt hook_salt token_salt now = do
    tenant_id ← or_throw dto.tenant_id (internal "invalid input syntax for type uuid")
    existing ← gets (λ s. lib.users.find_one (by_email dto.email (some tenant_id)) s.users)
    throw_if (is_some existing) (conflict "User with this email already exists in this tenant")
    let user =
        hash_password lib hook_salt (new_user dto tenant_id (lib.hash salt dto.password) new_id now)
    modify (λ s. record s { users = lib.users.insert user s.users })
    emit (user_registered user.id user.email user.tenant_id)
    tokens ← generate_tokens lib user token_salt now
    pure (record { tokens = tokens; user = safe_user user })
