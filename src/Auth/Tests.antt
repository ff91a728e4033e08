-- ===== src/Auth/Tests.antt =====
-- Runs of the auth module with a user of one tenant. For the libraries stand a hash that marks the
-- password and a token that names nobody.
use Prim.Native.String
use edu_crm_backend.Auth.Store.{profile_live, JwtPayload, Store, Libraries}
use edu_crm_backend.Auth.Login.{
  is_locked, check_two_fa, by_email, check_status, validate_found, validate_user, login, LoginDto,
}
use edu_crm_backend.Base.{
  ◌⊎◌, or_else, refl, arith, false, true, some, str_eq, Memᴰ, ◌≡◌, ◌++◌, none, Bool, [], ◌∷◌,
}
use edu_crm_backend.Auth.Reset.{set_reset, forgot_password, reset_password, set_code}
use edu_crm_backend.Database.InMemory.{in_memory}
use edu_crm_backend.Users.Entity.{user_live, User}
use edu_crm_backend.Auth.Session.{
  Registered, safe_user, register, RegisterDto, hash_password, invalid_refresh, logout, new_user,
  refresh_token,
}
use edu_crm_backend.Auth.Lockout.{wrong_passwords_lock, tries}
use edu_crm_backend.Shared.Enums.{uzbek, UserStatus, UserRole}
use edu_crm_backend.Auth.Tokens.{generate_tokens, LoginResponse, build_user_payload}
use edu_crm_backend.Database.Lookup.{OnlyMatch}
use edu_crm_backend.Base.Action.{Error, internal, unauthorized, bad_request, err, ok}
use edu_crm_backend.Auth.Codes.{
  reset_then_validate, reset_password-reset_password, forgot_password-reset_password,
}
use edu_crm_backend.Auth.Sessions.{AnswerFor, login_admits, admitted, logout-refresh_token}
use edu_crm_backend.Access.Tables.{permissions_for_role}
use edu_crm_backend.Auth.Account.{set_two_fa}
use edu_crm_backend.Auth.Register.{login-register}

abbrev member : JwtPayload
member = record { sub = 5; email = "ann@edu.uz"; role = UserRole.student; tenant_id = 1 }

abbrev plain : Libraries
plain = record {
  users = in_memory user_live;
  teachers = in_memory profile_live;
  students = in_memory profile_live;
  compare = λ p h. str_eq p h;
  hash = λ salt p. p;
  sign = λ secret payload now. "token";
  verify = λ secret token now. some member;
  totp_verify =
      λ secret token now. elim secret [ none ↦ err (internal "Missing secret") | some t ↦ ok true ];
}

abbrev ann : User
unfolding new_user
ann =
    new_user
      (record {
        first_name = "Ann";
        last_name = "Lee";
        email = "ann@edu.uz";
        password = "";
        phone = none;
        tenant_id = some 1;
      })
      1 "secret" 5 100

abbrev site : Store
site = record { users = ann ∷ []; teachers = []; students = []; events = [] }

only_ann : (p : User → Bool) → OnlyMatch p site.users ann
only_ann p r (Memᴰ.head e) h = e
only_ann p r (Memᴰ.tail m) h = elim m [ ]

wrong_passwords_lock_example :
    let s' =
      tries plain "ann@edu.uz" none
        ((("a", 1) ∷ ("b", 2) ∷ ("c", 3) ∷ ("d", 4) ∷ []) ++ ("e", 5) ∷ [])
        site in
    validate_user plain "ann@edu.uz" "secret" none 900004 s'
    ≡ (err (unauthorized "Account is locked."), s')
unfolding new_user
wrong_passwords_lock_example =
    wrong_passwords_lock plain "ann@edu.uz" none (("a", 1) ∷ ("b", 2) ∷ ("c", 3) ∷ ("d", 4) ∷ [])
      "e" 5 site ann refl (only_ann _) refl refl (refl, (refl, (refl, (refl, tt)))) refl "secret"
      900004 (omega arith)

abbrev form : LoginDto
form = record { email = "ann@edu.uz"; password = "secret"; two_fa_token = none }

abbrev answer : LoginResponse
unfolding new_user build_user_payload
answer = record {
  tokens = record { access_token = "token"; refresh_token = "token" };
  user = record {
    id = 5;
    email = "ann@edu.uz";
    first_name = "Ann";
    last_name = "Lee";
    role = UserRole.student;
    status = UserStatus.active;
    tenant_id = 1;
    profile_picture_url = none;
    phone = none;
    preferred_language = uzbek;
    two_factor_enabled = false;
    permissions = permissions_for_role UserRole.student;
    created_at = 100;
    teacher_id = none;
    student_id = none;
  };
}

login_admits_example :
    (u : User) × (plain.users.find_one (by_email "ann@edu.uz" none) site.users ≡ some u)
    × (plain.compare "secret" u.password ≡ true)
    × (is_locked u 50 ≡ false)
    × (admitted u.status ≡ true)
    × ((u.two_fa_enabled ≡ false)
        ⊎ (plain.totp_verify none (or_else form.two_fa_token "") 50 ≡ ok true))
    × AnswerFor plain u 50 answer
unfolding new_user login validate_user validate_found check_status check_two_fa generate_tokens
    build_user_payload
login_admits_example = login_admits plain form "10.0.0.1" 3 50 site answer refl

logout-refresh_token_example :
    refresh_token plain "token" 3 60 (logout plain 5 site).1
    ≡ (err invalid_refresh, (logout plain 5 site).1)
logout-refresh_token_example = logout-refresh_token plain 5 "token" member 3 60 site refl refl

abbrev mailed : Store
mailed = record site { users = set_code "123456" 1000 ann ∷ [] }

only_mailed : (p : User → Bool) → OnlyMatch p mailed.users (set_code "123456" 1000 ann)
only_mailed p r (Memᴰ.head e) h = e
only_mailed p r (Memᴰ.tail m) h = elim m [ ]

reset_password-reset_password_example :
    reset_password plain "123456" "other" 3 60 (reset_password plain "123456" "fresh" 3 50 mailed).1
    ≡ (
      err (bad_request "Invalid or expired reset token"),
      (reset_password plain "123456" "fresh" 3 50 mailed).1,
    )
unfolding new_user reset_password
reset_password-reset_password_example =
    reset_password-reset_password plain "123456" "fresh" "other" 3 3 50 60 mailed
      (set_code "123456" 1000 ann) refl refl (only_mailed _) refl

reset_then_validate_example :
    (validate_user plain "ann@edu.uz" "fresh" none 60
      (reset_password plain "123456" "fresh" 3 50 mailed).1).0
    ≡ ok (some (set_reset "fresh" 50 (set_code "123456" 1000 ann)))
unfolding new_user
reset_then_validate_example =
    reset_then_validate plain "ann@edu.uz" "123456" "fresh" 3 50 60 mailed
      (set_code "123456" 1000 ann) refl refl refl refl (only_mailed _) refl

forgot_password-reset_password_example :
    (reset_password plain "654321" "fresh" 3 60
      (forgot_password plain "ann@edu.uz" "654321" 50 site).1).0
    ≡ ok tt
unfolding new_user
forgot_password-reset_password_example =
    forgot_password-reset_password plain "ann@edu.uz" "654321" "fresh" 3 50 60 site ann refl refl
      (omega arith) (refl, tt)

abbrev guarded : Store
guarded = record site { users = set_two_fa ann ∷ [] }

-- A hash that marks the text, so that a hash of a hash is another text.
abbrev marked : Libraries
marked = record plain {
  compare = λ p h. str_eq (String.◌∷◌ "#" p) h;
  hash = λ salt p. String.◌∷◌ "#" p;
}

abbrev joining : RegisterDto
joining = record {
  first_name = "Bo";
  last_name = "Ray";
  email = "bo@edu.uz";
  password = "secret";
  phone = none;
  tenant_id = some 1;
}

abbrev bo : User
unfolding new_user hash_password
bo = hash_password marked 3 (new_user joining 1 "#secret" 6 100)

abbrev bo_form : LoginDto
bo_form = record { email = "bo@edu.uz"; password = "secret"; two_fa_token = none }

abbrev welcomed : Registered
unfolding safe_user new_user hash_password
welcomed = record {
  tokens = record { access_token = "token"; refresh_token = "token" };
  user = safe_user bo;
}

login-register_example :
    let s' = (register marked joining 6 3 3 3 100 site).1 in
    ((x : User) × Memᴰ x s'.users × (x.email ≡ "bo@edu.uz") × (x.password ≡ "##secret"))
    × ((e : Error) × ((login marked bo_form "10.0.0.1" 3 200 s').0 ≡ err e))
unfolding new_user hash_password register generate_tokens
login-register_example =
    login-register marked joining 6 3 3 3 3 100 200 site welcomed bo_form "10.0.0.1" refl refl refl
      refl refl refl refl
