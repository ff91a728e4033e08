-- ===== src/Users/Service.antt =====
-- modules/users/users.service.ts, over the table that modules/auth works on.
use edu_crm_backend.Auth.Store.{Libraries, Store, update_user}
use edu_crm_backend.Shared.Enums.{UserRole, UserStatus, Gender, Language}
use edu_crm_backend.Auth.Session.{hash_password}
use edu_crm_backend.Base.{
  not, ◌+◌, is_some, false, ◌&&◌, str_eq, none, ◌==◌, or_else, ℕ, some, Bool, Option, String,
}
use edu_crm_backend.Users.Entity.{has_user_id, User}
use edu_crm_backend.Database.{Instant, Uuid}
use edu_crm_backend.Base.Action.{
  pure, modify, not_found, conflict, internal, or_throw, gets, throw_if, ◌>>=◌, ◌>>◌, Action,
}

pub record CreateUserDto : Type 0 where
  pub first_name : String
  pub last_name : String
  pub middle_name : Option String
  pub email : String
  pub phone : Option String
  pub password : String
  pub role : Option UserRole
  pub gender : Option Gender
  pub language : Option Language
  pub date_of_birth : Option Instant
  pub address : Option String
  pub city : Option String
  pub timezone : Option String
  pub branch : Option String

-- `PartialType(OmitType(CreateUserDto, ['password']))`
pub record UpdateUserDto : Type 0 where
  pub first_name : Option String
  pub last_name : Option String
  pub middle_name : Option String
  pub email : Option String
  pub phone : Option String
  pub role : Option UserRole
  pub gender : Option Gender
  pub language : Option Language
  pub date_of_birth : Option Instant
  pub address : Option String
  pub city : Option String
  pub timezone : Option String
  pub branch : Option String

pub record UpdateProfileDto : Type 0 where
  pub first_name : Option String
  pub last_name : Option String
  pub phone : Option String
  pub date_of_birth : Option Instant
  pub gender : Option Gender
  pub address : Option String
  pub city : Option String
  pub country : Option String
  pub language : Option Language
  pub timezone : Option String
  pub avatar_url : Option String

abbrev pub user_in_tenant : Uuid → Uuid → User → Bool
user_in_tenant id tenant_id u = u.id == id && u.tenant_id == tenant_id

-- `where: { email, tenantId }`
abbrev pub email_in_tenant : String → Uuid → User → Bool
email_in_tenant email tenant_id u = str_eq u.email email && u.tenant_id == tenant_id

unfoldable pub created_user : CreateUserDto → Uuid → Uuid → Instant → User
created_user dto tenant_id new_id now = record {
  id = new_id;
  created_at = now;
  deleted_at = none;
  tenant_id = tenant_id;
  first_name = dto.first_name;
  last_name = dto.last_name;
  middle_name = dto.middle_name;
  email = dto.email;
  phone = dto.phone;
  password = dto.password;
  role = or_else dto.role UserRole.student;
  status = UserStatus.pending;
  gender = dto.gender;
  language = or_else dto.language Language.uzbek;
  avatar_url = none;
  date_of_birth = dto.date_of_birth;
  address = dto.address;
  city = dto.city;
  timezone = dto.timezone;
  is_email_verified = false;
  is_phone_verified = false;
  two_fa_enabled = false;
  two_fa_secret = none;
  refresh_token = none;
  last_login_at = none;
  last_login_ip = none;
  otp_code = none;
  otp_expires_at = none;
  custom_role_id = none;
  branch = dto.branch;
  invite_token = none;
  login_attempts = 0;
  locked_until = none;
  created_by = none;
}

-- A key that the request gives, or what is stored.
abbrev pub new_or : {A : Type 0} → Option A → Option A → Option A
new_or none old = old
new_or (some a) old = some a

pub assign_user : UpdateUserDto → User → User
assign_user dto u = record u {
  first_name = or_else dto.first_name u.first_name;
  last_name = or_else dto.last_name u.last_name;
  middle_name = new_or dto.middle_name u.middle_name;
  email = or_else dto.email u.email;
  phone = new_or dto.phone u.phone;
  role = or_else dto.role u.role;
  gender = new_or dto.gender u.gender;
  language = or_else dto.language u.language;
  date_of_birth = new_or dto.date_of_birth u.date_of_birth;
  address = new_or dto.address u.address;
  city = new_or dto.city u.city;
  timezone = new_or dto.timezone u.timezone;
  branch = new_or dto.branch u.branch;
}

pub assign_profile : UpdateProfileDto → User → User
assign_profile dto u = record u {
  first_name = or_else dto.first_name u.first_name;
  last_name = or_else dto.last_name u.last_name;
  phone = new_or dto.phone u.phone;
  date_of_birth = new_or dto.date_of_birth u.date_of_birth;
  gender = new_or dto.gender u.gender;
  address = new_or dto.address u.address;
  city = new_or dto.city u.city;
  language = or_else dto.language u.language;
  timezone = new_or dto.timezone u.timezone;
  avatar_url = new_or dto.avatar_url u.avatar_url;
}

module _ (lib : Libraries) where
  pub find_user : Uuid → Uuid → Action Store User
  find_user id tenant_id = do
    found ← gets (λ s. lib.users.find_one (user_in_tenant id tenant_id) s.users)
    or_throw found (not_found "User not found")

  unfoldable pub find_by_email : String → Uuid → Store → Option User
  find_by_email email tenant_id s = lib.users.find_one (email_in_tenant email tenant_id) s.users

  -- The hook of the entity hashes the password before the insert. The unique index on the email and
  -- the tenant is taken as the migration CreateIndexes makes it, over the rows that are not deleted,
  -- so that the check before the insert covers it.
  unfoldable pub create_user : CreateUserDto → Uuid → Uuid → ℕ → Instant → Action Store User
  unfolding find_by_email created_user hash_password
  create_user dto tenant_id new_id salt now = do
    existing ← gets (find_by_email dto.email tenant_id)
    throw_if (is_some existing) (conflict "User with this email already exists")
    let user = hash_password lib salt (created_user dto tenant_id new_id now)
    modify (λ s. record s { users = lib.users.insert user s.users })
    pure user

  -- `findOne`, `update` by id, and `findOne` again
  pub change_user : Uuid → Uuid → (User → User) → Action Store User
  unfolding find_user
  change_user id tenant_id f = do
    find_user id tenant_id
    update_user lib id f
    find_user id tenant_id

  pub update_user_fields : Uuid → UpdateUserDto → Uuid → Action Store User
  unfolding change_user assign_user
  update_user_fields id dto tenant_id = change_user id tenant_id (assign_user dto)

  pub remove_user : Uuid → Uuid → Instant → Action Store (Unit {0})
  unfolding find_user
  remove_user id tenant_id now = do
    find_user id tenant_id
    update_user lib id (λ u. record u { deleted_at = some now })

  -- `country` is no column of the entity: TypeORM refuses an update that names it.
  pub update_profile : Uuid → UpdateProfileDto → Uuid → Action Store User
  unfolding find_user assign_profile
  update_profile id dto tenant_id = do
    find_user id tenant_id
    throw_if (is_some dto.country) (internal "Property \"country\" was not found in \"User\"")
    update_user lib id (assign_profile dto)
    find_user id tenant_id

  pub change_own_password : Uuid → String → String → ℕ → Action Store (Unit {0})
  change_own_password id current_password new_password salt = do
    found ← gets (λ s. lib.users.find_one (has_user_id id) s.users)
    user ← or_throw found (not_found "User not found")
    throw_if (not (lib.compare current_password user.password))
        (conflict "Current password is incorrect")
    update_user lib id (λ u. record u { password = lib.hash salt new_password })

  pub update_last_login : Uuid → String → Instant → Action Store (Unit {0})
  update_last_login id ip now =
      update_user lib id (λ u. record u { last_login_at = some now; last_login_ip = some ip })

  pub increment_login_attempts : Uuid → Action Store ℕ
  increment_login_attempts id = do
    found ← gets (λ s. lib.users.find_one (has_user_id id) s.users)
    user ← or_throw found (not_found "User not found")
    update_user lib id (λ u. record u { login_attempts = user.login_attempts + 1 })
    pure (user.login_attempts + 1)

  pub lock_user : Uuid → Instant → Action Store (Unit {0})
  lock_user id until =
      update_user lib id (λ u. record u { locked_until = some until; status = UserStatus.blocked })

  pub unlock_user : Uuid → Action Store (Unit {0})
  unlock_user id =
      update_user lib id
        (λ u. record u { locked_until = none; login_attempts = 0; status = UserStatus.active })

  pub update_refresh_token : Uuid → Option String → Action Store (Unit {0})
  update_refresh_token id hashed_token =
      update_user lib id (λ u. record u { refresh_token = some (or_else hashed_token "") })

  pub update_status : Uuid → Uuid → UserStatus → Action Store User
  unfolding change_user
  update_status id tenant_id status = change_user id tenant_id (λ u. record u { status = status })

  pub update_role_of : Uuid → Uuid → UserRole → Action Store User
  unfolding change_user
  update_role_of id tenant_id role = change_user id tenant_id (λ u. record u { role = role })
