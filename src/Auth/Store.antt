-- ===== src/Auth/Store.antt =====
-- The state of modules/auth/auth.service.ts and what the service takes from libraries: the
-- database, bcrypt, the JWT service and the TOTP check, none of which is part of the repository.
use edu_crm_backend.Base.{false, some, true, none, ℕ, ◌∷◌, String, Option, List, Bool}
use edu_crm_backend.Base.Action.{Result, modify, Action}
use edu_crm_backend.Database.{Instant, Uuid, Repository}
use edu_crm_backend.Users.Entity.{has_user_id, User, user_live}
use edu_crm_backend.Shared.Enums.{UserRole}

-- The rows of `teachers` and `students` that name a user.
pub record Profile : Type 0 where
  pub id : Uuid
  pub deleted_at : Option Instant
  pub user_id : Uuid
  pub tenant_id : Uuid

abbrev pub profile_live : Profile → Bool
profile_live p = elim p.deleted_at [ none ↦ true | some t ↦ false ]

pub data Event : Type 0 where
  user_registered : Uuid → String → Uuid → Event
  auth_login : Uuid → String → Event
  auth_logout : Uuid → Event
  otp_mail : String → String → String → Event

pub record Store : Type 0 where
  pub users : List User
  pub teachers : List Profile
  pub students : List Profile
  pub events : List Event

-- The payload of the tokens (interfaces/jwt-payload.interface.ts).
pub record JwtPayload : Type 0 where
  pub sub : Uuid
  pub email : String
  pub role : UserRole
  pub tenant_id : Uuid

pub data Secret : Type 0 where
  access refresh : Secret

-- bcrypt draws a salt for each hash; a token is signed at an instant and holds it. The check of a
-- time-based code may throw; `none` is a secret that is `undefined`.
pub record Libraries : Type 0 where
  pub users : Repository user_live
  pub teachers : Repository profile_live
  pub students : Repository profile_live
  pub compare : String → String → Bool
  pub hash : ℕ → String → String
  pub sign : Secret → JwtPayload → Instant → String
  pub verify : Secret → String → Instant → Option JwtPayload
  pub totp_verify : Option String → String → Instant → Result Bool

abbrev pub emit : Event → Action Store (Unit {0})
emit e = modify (λ s. record s { events = e ∷ s.events })

-- `userRepo.update(id, …)` and `update(User).set(…).where('id = :id')`
abbrev pub update_user : Libraries → Uuid → (User → User) → Action Store (Unit {0})
update_user lib id f =
    modify (λ s. record s { users = lib.users.update (has_user_id id) f s.users })
