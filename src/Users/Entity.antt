-- ===== src/Users/Entity.antt =====
-- modules/users/entities/user.entity.ts: the columns of a user, without the relation to the tenant.
-- Of the free-form `metadata` only the key `inviteToken` is kept, which invitations use.
use edu_crm_backend.Base.{true, ℕ, none, str_eq, not, some, false, ◌==◌, String, Option, Bool}
use edu_crm_backend.Database.{Instant, Uuid}
use edu_crm_backend.Shared.Enums.{Language, Gender, UserStatus, UserRole}

pub record User : Type 0 where
  pub id : Uuid
  pub created_at : Instant
  pub deleted_at : Option Instant
  pub tenant_id : Uuid
  pub first_name : String
  pub last_name : String
  pub middle_name : Option String
  pub email : String
  pub phone : Option String
  pub password : String
  pub role : UserRole
  pub status : UserStatus
  pub gender : Option Gender
  pub language : Language
  pub avatar_url : Option String
  pub date_of_birth : Option Instant
  pub address : Option String
  pub city : Option String
  pub timezone : Option String
  pub is_email_verified : Bool
  pub is_phone_verified : Bool
  pub two_fa_enabled : Bool
  pub two_fa_secret : Option String
  pub refresh_token : Option String
  pub last_login_at : Option Instant
  pub last_login_ip : Option String
  pub otp_code : Option String
  pub otp_expires_at : Option Instant
  pub custom_role_id : Option Uuid
  pub branch : Option String
  pub invite_token : Option String
  pub login_attempts : ℕ
  pub locked_until : Option Instant
  pub created_by : Option Uuid

abbrev pub user_live : User → Bool
user_live u = elim u.deleted_at [ none ↦ true | some t ↦ false ]

-- `where: { id }`
abbrev pub has_user_id : Uuid → User → Bool
has_user_id id u = u.id == id

-- A nullable text that counts as present: `!x` is false.
abbrev pub truthy : Option String → Bool
truthy none = false
truthy (some t) = not (str_eq t "")
