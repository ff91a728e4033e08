-- ===== src/Users/Created.antt =====
-- An account that `create` makes, at the password check of modules/auth.
use edu_crm_backend.Auth.Store.{Libraries, Store}
use edu_crm_backend.Users.Service.{
  email_in_tenant, find_by_email, created_user, create_user, CreateUserDto,
}
use edu_crm_backend.Auth.Session.{hash_password}
use text.Mathlib.Text.{starts_with}
use edu_crm_backend.Users.Entity.{user_live, User}
use edu_crm_backend.Database.{Instant, Uuid}
use edu_crm_backend.Base.{
  String, ==_refl, str_eq_refl, ap, ◌∙◌, arith, some, ◌∷◌, refl, true, Memᴰ, false, none, str_eq,
  ◌≡◌, ℕ, List, Bool,
}
use edu_crm_backend.Base.Action.{conflict, err, ok}
use edu_crm_backend.Auth.Login.{is_locked, validate_found, validate_user}
use edu_crm_backend.Database.Lookup.{find_one-only_new, find_one_total}

module _ (lib : Libraries) where
  -- The hook leaves everything but the password.
  hashed :
      (dto : CreateUserDto) (tenant_id new_id : Uuid) (salt : ℕ) (now : Instant)
      → str_eq dto.password "" ≡ false
      → starts_with dto.password "$2b$" ≡ false
      → hash_password lib salt (created_user dto tenant_id new_id now)
        ≡ record (created_user dto tenant_id new_id now) { password = lib.hash salt dto.password }
  unfolding hash_password created_user
  hashed dto tenant_id new_id salt now full plain = rw (full, plain) refl

  created :
      (dto : CreateUserDto) (tenant_id new_id : Uuid) (salt : ℕ) (now : Instant) (s : Store)
      → lib.users.find_one (email_in_tenant dto.email tenant_id) s.users ≡ none
      → let u = hash_password lib salt (created_user dto tenant_id new_id now) in
        ((create_user lib dto tenant_id new_id salt now s).0 ≡ ok u)
        × ((create_user lib dto tenant_id new_id salt now s).1.users ≡ u ∷ s.users)
  unfolding create_user find_by_email
  created dto tenant_id new_id salt now s free = (
    ground arith,
    ground (
      arith,
      lib.users.insert_lem (hash_password lib salt (created_user dto tenant_id new_id now)) s.users,
    ),
  )

  -- The only visible row with an email that was free is the new one.
  found_new :
      (p : User → Bool) (u : User) (rows : List User)
      → lib.users.find_one p rows ≡ none
      → user_live u ≡ true
      → p u ≡ true
      → lib.users.find_one p (u ∷ rows) ≡ some u
  found_new p u rows free alive fits =
      let (x, e) = find_one_total lib.users p (u ∷ rows) u (Memᴰ.head refl) alive fits in
      let m = lib.users.find_one_listed p (u ∷ rows) x e in
      let l = lib.users.find_one_live p (u ∷ rows) x e in
      let f = lib.users.find_one_fits p (u ∷ rows) x e in
      e ∙ ap some (find_one-only_new lib.users p u rows x free m l f)

  accepted :
      (email password : String) (tenant_id : Uuid) (now : Instant) (s : Store) (u : User)
      → lib.users.find_one (email_in_tenant email tenant_id) s.users ≡ some u
      → lib.compare password u.password ≡ true
      → is_locked u now ≡ false
      → (validate_user lib email password (some tenant_id) now s).0 ≡ ok (some u)
  unfolding validate_user validate_found
  accepted email password tenant_id now s u found right open_ = ground arith

  taken :
      (dto : CreateUserDto) (tenant_id new_id : Uuid) (salt : ℕ) (now : Instant) (s : Store)
      (u : User)
      → lib.users.find_one (email_in_tenant dto.email tenant_id) s.users ≡ some u
      → create_user lib dto tenant_id new_id salt now s
        ≡ (err (conflict "User with this email already exists"), s)
  unfolding create_user find_by_email
  taken dto tenant_id new_id salt now s u found = ground arith

  -- An account that `create` makes for an email that is free in the tenant passes the password check
  -- with the password that was given, where bcrypt recognises its own hash and the password is not
  -- empty and does not look hashed; a second account with the email is refused.
  pub create_user-validate_user :
      (dto : CreateUserDto) (tenant_id new_id other_id : Uuid) (salt : ℕ) (now later : Instant)
      (s : Store)
      → lib.users.find_one (email_in_tenant dto.email tenant_id) s.users ≡ none
      → str_eq dto.password "" ≡ false
      → starts_with dto.password "$2b$" ≡ false
      → lib.compare dto.password (lib.hash salt dto.password) ≡ true
      → let s' = (create_user lib dto tenant_id new_id salt now s).1 in
        (u : User) × ((create_user lib dto tenant_id new_id salt now s).0 ≡ ok u)
        × ((validate_user lib dto.email dto.password (some tenant_id) later s').0 ≡ ok (some u))
        × (create_user lib dto tenant_id other_id salt later s'
            ≡ (err (conflict "User with this email already exists"), s'))
  unfolding created_user
  create_user-validate_user dto tenant_id new_id other_id salt now later s free full plain knows =
      let u0 = created_user dto tenant_id new_id now in
      let u = hash_password lib salt u0 in
      let (made, rows) = created dto tenant_id new_id salt now s free in
      let is : u ≡ record u0 { password = lib.hash salt dto.password } =
        hashed dto tenant_id new_id salt now full plain in
      let p : User → Bool = email_in_tenant dto.email tenant_id in
      let fits : p u ≡ true = rw is (rw (str_eq_refl dto.email, ==_refl tenant_id) refl) in
      let alive : user_live u ≡ true = rw is refl in
      let e : lib.users.find_one p (create_user lib dto tenant_id new_id salt now s).1.users
          ≡ some u =
        rw rows (found_new p u s.users free alive fits) in
      (
        u,
        made,
        accepted dto.email dto.password tenant_id later _ u e (rw is knows) (rw is refl),
        taken dto tenant_id other_id salt later _ u e,
      )
