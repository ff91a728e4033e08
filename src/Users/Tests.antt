-- ===== src/Users/Tests.antt =====
-- Runs of the users service on an empty table.
use edu_crm_backend.Auth.Store.{profile_live, Libraries, Store}
use edu_crm_backend.Users.Service.{create_user, CreateUserDto}
use edu_crm_backend.Database.InMemory.{in_memory}
use edu_crm_backend.Base.{refl, some, false, concat, str_eq, ◌≡◌, [], none}
use edu_crm_backend.Users.Entity.{User, user_live}
use edu_crm_backend.Base.Action.{conflict, err, ok}
use edu_crm_backend.Auth.Login.{validate_user}
use edu_crm_backend.Users.Created.{create_user-validate_user}

-- A hash is the text with a mark in front.
abbrev plain : Libraries
plain = record {
  users = in_memory user_live;
  teachers = in_memory profile_live;
  students = in_memory profile_live;
  compare = λ p h. str_eq (concat "#" p) h;
  hash = λ salt p. concat "#" p;
  sign = λ k p t. "";
  verify = λ k t now. none;
  totp_verify = λ secret token now. ok false;
}

abbrev joining : CreateUserDto
joining = record {
  first_name = "Eve";
  last_name = "Kim";
  middle_name = none;
  email = "eve@school.example";
  phone = none;
  password = "correct horse";
  role = none;
  gender = none;
  language = none;
  date_of_birth = none;
  address = none;
  city = none;
  timezone = none;
  branch = none;
}

abbrev site : Store
site = record { users = []; teachers = []; students = []; events = [] }

create_user-validate_user_example :
    let s' = (create_user plain joining 1 5 0 100 site).1 in
    (u : User) × ((create_user plain joining 1 5 0 100 site).0 ≡ ok u)
    × ((validate_user plain "eve@school.example" "correct horse" (some 1) 200 s').0 ≡ ok (some u))
    × (create_user plain joining 1 6 0 200 s'
        ≡ (err (conflict "User with this email already exists"), s'))
create_user-validate_user_example =
    create_user-validate_user plain joining 1 5 6 0 100 200 site refl refl refl refl
