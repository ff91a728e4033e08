-- ===== src/Auth/Tokens.antt =====
-- `generateTokens` and `buildUserPayload` of modules/auth/auth.service.ts.
use mathlib.Core.Option
use edu_crm_backend.Auth.Store.{update_user, refresh, access, JwtPayload, Libraries, Profile, Store}
use edu_crm_backend.Base.{List, none, ◌&&◌, ℕ, some, Option, ◌==◌, String, Bool}
use edu_crm_backend.Database.{Instant, Uuid}
use edu_crm_backend.Users.Entity.{User}
use edu_crm_backend.Base.Action.{pure, gets, ◌>>◌, ◌>>=◌, Action}
use edu_crm_backend.Shared.Enums.{Language, UserStatus, UserRole}
use edu_crm_backend.Access.Tables.{permissions_for_role}

pub record Tokens : Type 0 where
  pub access_token : String
  pub refresh_token : String

-- What `/auth/me`, a login and a refresh tell the client of the user.
pub record MeResponse : Type 0 where
  pub id : Uuid
  pub email : String
  pub first_name : String
  pub last_name : String
  pub role : UserRole
  pub status : UserStatus
  pub tenant_id : Uuid
  pub profile_picture_url : Option String
  pub phone : Option String
  pub preferred_language : Language
  pub two_factor_enabled : Bool
  pub permissions : List String
  pub created_at : Instant
  pub teacher_id : Option Uuid
  pub student_id : Option Uuid

pub record LoginResponse : Type 0 where
  pub tokens : Tokens
  pub user : MeResponse

abbrev pub payload_of : User → JwtPayload
payload_of u = record { sub = u.id; email = u.email; role = u.role; tenant_id = u.tenant_id }

abbrev pub set_refresh_token : String → User → User
set_refresh_token t u = record u { refresh_token = some t }

-- `where: { userId, tenantId }`
abbrev pub of_user : User → Profile → Bool
of_user u p = p.user_id == u.id && p.tenant_id == u.tenant_id

abbrev pub profile_id : Profile → Uuid
profile_id p = p.id

module _ (lib : Libraries) where
  unfoldable pub generate_tokens : User → ℕ → Instant → Action Store Tokens
  generate_tokens user salt now = do
    let access_token = lib.sign access (payload_of user) now
    let refresh_token = lib.sign refresh (payload_of user) now
    update_user lib user.id (set_refresh_token (lib.hash salt refresh_token))
    pure (record { access_token = access_token; refresh_token = refresh_token })

  teacher_id_of : User → Store → Option Uuid
  teacher_id_of u s = elim u.role [
    | UserRole.teacher ↦ Option.map profile_id (lib.teachers.find_one (of_user u) s.teachers)
    | _ ↦ none
  ]

  student_id_of : User → Store → Option Uuid
  student_id_of u s = elim u.role [
    | UserRole.student ↦ Option.map profile_id (lib.students.find_one (of_user u) s.students)
    | _ ↦ none
  ]

  unfoldable pub build_user_payload : User → Action Store MeResponse
  unfolding teacher_id_of student_id_of
  build_user_payload user = do
    teacher_id ← gets (teacher_id_of user)
    student_id ← gets (student_id_of user)
    pure (record {
      id = user.id;
      email = user.email;
      first_name = user.first_name;
      last_name = user.last_name;
      role = user.role;
      status = user.status;
      tenant_id = user.tenant_id;
      profile_picture_url = user.avatar_url;
      phone = user.phone;
      preferred_language = user.language;
      two_factor_enabled = user.two_fa_enabled;
      permissions = permissions_for_role user.role;
      created_at = user.created_at;
      teacher_id = teacher_id;
      student_id = student_id;
    })
