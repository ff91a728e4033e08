-- ===== src/Auth/Register.antt =====
-- The password that `register` stores.
use text.Mathlib.Text.{starts_with}
use edu_crm_backend.Auth.Store.{refresh, Store, Libraries}
use edu_crm_backend.Auth.Session.{Registered, new_user, register, RegisterDto, hash_password}
use edu_crm_backend.Database.{Instant, Uuid}
use edu_crm_backend.Auth.Tokens.{payload_of, set_refresh_token, generate_tokens}
use edu_crm_backend.Base.{
  Bool, ==_refl, Option-cases, Bool-cases, ◌∷◌, Memᴰ, if◌then◌else◌, sym, ◌∙◌, ap, inr, inl, some,
  none, String, refl, arith, false, ◌≡◌, str_eq, ℕ,
}
use edu_crm_backend.Users.Entity.{user_live, has_user_id, User}
use edu_crm_backend.Base.Action.{Result-cases, err, Error, ok}
use edu_crm_backend.Auth.Login.{login, by_email, LoginDto}
use edu_crm_backend.Auth.Sessions.{login_admits}
use edu_crm_backend.Database.Rows.{mem-update_rows_inv, mem-update_rows_hit, update_rows}
use edu_crm_backend.Database.Lookup.{find_one-only_new}

-- A row as an update by id left it has the password, the email and the state that it had.
kept :
    (lib : Libraries) (id : Uuid) (token email : String) (w y : User)
    → w ≡ (if has_user_id id y then set_refresh_token token y else y)
    → (w.password ≡ y.password)
      × (by_email email none w ≡ by_email email none y)
      × (user_live w ≡ user_live y)
kept lib id token email w y e = elim (Bool-cases (has_user_id id y)) [
  | inl hit ↦ let e' : w ≡ set_refresh_token token y = rw hit at e in rw e' (refl, refl, refl)
  | inr miss ↦ let e' : w ≡ y = rw miss at e in rw e' (refl, refl, refl)
]

module _ (lib : Libraries) where
  -- The row that `register` inserts, and the table that it leaves.
  registered :
      (dto : RegisterDto) (new_id : Uuid) (salt hook_salt token_salt : ℕ) (now : Instant)
      (s : Store) (r : Registered)
      → (register lib dto new_id salt hook_salt token_salt now s).0 ≡ ok r
      → (t : Uuid) × (dto.tenant_id ≡ some t)
        × let u =
            hash_password lib hook_salt (new_user dto t (lib.hash salt dto.password) new_id now) in
          ((register lib dto new_id salt hook_salt token_salt now s).1.users
            ≡ update_rows
                (has_user_id u.id)
                (set_refresh_token (lib.hash token_salt (lib.sign refresh (payload_of u) now)))
                (u ∷ s.users))
  unfolding register generate_tokens
  registered dto new_id salt hook_salt token_salt now s r done = elim (Option-cases dto.tenant_id) [
    | inl missing ↦ absurd (ground arith)
    | inr (t, given) ↦
        let u =
          hash_password lib hook_salt (new_user dto t (lib.hash salt dto.password) new_id now) in
        (
          t,
          given,
          ground (
            arith,
            lib.users.insert_lem u s.users,
            lib.users.update_lem (has_user_id u.id)
                (set_refresh_token (lib.hash token_salt (lib.sign refresh (payload_of u) now)))
                (u ∷ s.users),
          ),
        )
  ]

  hashed_twice :
      (dto : RegisterDto) (t new_id : Uuid) (salt hook_salt : ℕ) (now : Instant)
      → str_eq (lib.hash salt dto.password) "" ≡ false
      → starts_with (lib.hash salt dto.password) "$2b$" ≡ false
      → let u =
          hash_password lib hook_salt (new_user dto t (lib.hash salt dto.password) new_id now) in
        (u.email ≡ dto.email) × (u.password ≡ lib.hash hook_salt (lib.hash salt dto.password))
  unfolding hash_password new_user
  hashed_twice dto t new_id salt hook_salt now some_text plain = rw (some_text, plain) (refl, refl)

  -- Where no account that is not deleted has the email, in any tenant, and the hash of the password is
  -- not empty and does not start with "$2b$", a `register` that succeeds leaves a row with the email
  -- and a hash of the hash as the password; and where that does not match the password, a login
  -- afterwards with the email and the password given at the registration is refused.
  pub login-register :
      (dto : RegisterDto) (new_id : Uuid) (salt hook_salt token_salt login_salt : ℕ)
      (now later : Instant) (s : Store) (r : Registered) (form : LoginDto) (ip : String)
      → lib.users.find_one (by_email dto.email none) s.users ≡ none
      → str_eq (lib.hash salt dto.password) "" ≡ false
      → starts_with (lib.hash salt dto.password) "$2b$" ≡ false
      → lib.compare dto.password (lib.hash hook_salt (lib.hash salt dto.password)) ≡ false
      → (register lib dto new_id salt hook_salt token_salt now s).0 ≡ ok r
      → form.email ≡ dto.email
      → form.password ≡ dto.password
      → let s' = (register lib dto new_id salt hook_salt token_salt now s).1 in
        ((x : User) × Memᴰ x s'.users
          × (x.email ≡ dto.email)
          × (x.password ≡ lib.hash hook_salt (lib.hash salt dto.password)))
        × ((e : Error) × ((login lib form ip login_salt later s').0 ≡ err e))
  login-register dto new_id salt hook_salt token_salt login_salt now later s r form ip free
        some_text plain apart done same_email same_word =
      let (t, given, rows) = registered dto new_id salt hook_salt token_salt now s r done in
      let u =
        hash_password lib hook_salt (new_user dto t (lib.hash salt dto.password) new_id now) in
      let token = lib.hash token_salt (lib.sign refresh (payload_of u) now) in
      let s' : Store = (register lib dto new_id salt hook_salt token_salt now s).1 in
      let (mail, twice) = hashed_twice dto t new_id salt hook_salt now some_text plain in
      (
        (
          set_refresh_token token u,
          rw rows (
              mem-update_rows_hit (has_user_id u.id) (set_refresh_token token) (u ∷ s.users)
                (Memᴰ.head refl) (==_refl u.id)),
          mail,
          twice,
        ),
        elim (Result-cases (login lib form ip login_salt later s').0) [
          | inl refused ↦ refused
          | inr (answer, let_in) ↦
              let (w, found, right, _, _, _, _) =
                login_admits lib form ip login_salt later s' answer let_in in
              let p : User → Bool = by_email form.email none in
              let found' = rw rows at found in
              let (y, k, from) =
                mem-update_rows_inv (has_user_id u.id) (set_refresh_token token) (u ∷ s.users)
                  (lib.users.find_one_listed p _ w found') in
              let (word, mails, lives) = kept lib u.id token form.email w y from in
              let one : y ≡ u =
                find_one-only_new lib.users p u s.users y (rw same_email free) k
                  (sym lives ∙ lib.users.find_one_live p _ w found')
                  (sym mails ∙ lib.users.find_one_fits p _ w found') in
              let held : w.password ≡ lib.hash hook_salt (lib.hash salt dto.password) =
                word ∙ (ap (λ x. x.password) one ∙ twice) in
              let wrong : lib.compare form.password w.password ≡ false =
                rw (same_word, held) apart in
              cc
        ],
      )
