-- ===== src/Auth/Codes.antt =====
-- One-time codes: the three steps from a forgotten password to a new one.
use edu_crm_backend.Auth.Store.{Libraries, Store}
use edu_crm_backend.Auth.Reset.{
  set_code, fifteen_minutes, has_email, send_code, set_reset, code_expired, has_code,
  forgot_password, reset_password,
}
use edu_crm_backend.Auth.Login.{is_locked, by_email, validate_found, validate_user}
use edu_crm_backend.Base.{
  ap, str_eq_refl, All-mem, All-of_mem, All, ◌+◌, ◌≤◌, inr, inl, Bool-cases, refl, ==_refl, arith,
  none, some, false, true, str_eq, ◌≡◌, ℕ, String,
}
use edu_crm_backend.Database.{Instant}
use edu_crm_backend.Users.Entity.{user_live, has_user_id, User}
use edu_crm_backend.Database.Lookup.{
  find_one_total, find_one-update_gone, find_one-update_only, OnlyMatch,
}
use edu_crm_backend.Base.Action.{bad_request, err, ok}
use edu_crm_backend.Database.Rows.{mem-update_rows_hit, All-update_rows, update_rows}

module _ (lib : Libraries) where
  -- What a reset writes.
  pub reset_found :
      (token password : String) (salt : ℕ) (now : Instant) (s : Store) (u : User)
      → lib.users.find_one (has_code token) s.users ≡ some u
      → code_expired u now ≡ false
      → reset_password lib token password salt now s ≡ (
        ok tt,
        record s {
          users = update_rows (has_user_id u.id) (set_reset (lib.hash salt password) now) s.users;
        },
      )
  unfolding reset_password
  reset_found token password salt now s u found fresh = ground (
    arith,
    lib.users.update_lem (has_user_id u.id) (set_reset (lib.hash salt password) now) s.users,
  )

  -- A code that is not empty, once it has reset the password of the only user who had it, resets
  -- none again: the next request with it is refused as invalid and changes nothing.
  pub reset_password-reset_password :
      (token password password' : String) (salt salt' : ℕ) (now now' : Instant) (s : Store)
      (u : User)
      → str_eq "" token ≡ false
      → lib.users.find_one (has_code token) s.users ≡ some u
      → OnlyMatch (has_code token) s.users u
      → (reset_password lib token password salt now s).0 ≡ ok tt
      → let s' = (reset_password lib token password salt now s).1 in
        reset_password lib token password' salt' now' s'
        ≡ (err (bad_request "Invalid or expired reset token"), s')
  unfolding reset_password
  reset_password-reset_password token password password' salt salt' now now' s u ne found only
        done =
      elim (Bool-cases (code_expired u now)) [
        | inl late ↦ absurd (ground arith)
        | inr fresh ↦
            let e : lib.users.find_one (has_code token)
                  (update_rows (has_user_id u.id) (set_reset (lib.hash salt password) now) s.users)
                ≡ none =
              find_one-update_gone lib.users (has_code token) (has_user_id u.id)
                (set_reset (lib.hash salt password) now) s.users u only (λ r. ne) (==_refl u.id) in
            rw (reset_found token password salt now s u found fresh) (rw e refl)
      ]

  validate_open :
      (email password : String) (now : Instant) (s : Store) (u : User)
      → lib.users.find_one (by_email email none) s.users ≡ some u
      → lib.compare password u.password ≡ true
      → is_locked u now ≡ false
      → (validate_user lib email password none now s).0 ≡ ok (some u)
  unfolding validate_user validate_found
  validate_open email password now s u found right open_ = ground arith

  -- After a reset by a code that has not expired, of a user who is the only one with the email,
  -- the password check accepts the new password, where bcrypt recognises its own hash and the
  -- account is not locked.
  pub reset_then_validate :
      (email token password : String) (salt : ℕ) (now later : Instant) (s : Store) (u : User)
      → lib.compare password (lib.hash salt password) ≡ true
      → lib.users.find_one (has_code token) s.users ≡ some u
      → code_expired u now ≡ false
      → lib.users.find_one (by_email email none) s.users ≡ some u
      → OnlyMatch (by_email email none) s.users u
      → is_locked u later ≡ false
      → (validate_user lib email password none later
          (reset_password lib token password salt now s).1).0
        ≡ ok (some (set_reset (lib.hash salt password) now u))
  reset_then_validate email token password salt now later s u knows found fresh named only open_ =
      let e =
        find_one-update_only lib.users (by_email email none) (has_user_id u.id)
          (set_reset (lib.hash salt password) now) s.users u named only (λ r. refl) (λ r. refl)
          (==_refl u.id) in
      rw (reset_found token password salt now s u found fresh)
        (validate_open email password later _ _ e knows open_)

  forgot_found :
      (email otp : String) (now : Instant) (s : Store) (u : User)
      → lib.users.find_one (has_email email) s.users ≡ some u
      → (forgot_password lib email otp now s).1.users
        ≡ update_rows (has_user_id u.id) (set_code otp (now + fifteen_minutes)) s.users
  unfolding forgot_password send_code
  forgot_found email otp now s u found = ground (
    arith,
    lib.users.update_lem (has_user_id u.id) (set_code otp (now + fifteen_minutes)) s.users,
  )

  -- The mailed code resets the password by itself, within fifteen minutes and where no user had
  -- the code before: `verifyOtp` need not be called.
  pub forgot_password-reset_password :
      (email otp password : String) (salt : ℕ) (now later : Instant) (s : Store) (u : User)
      → lib.users.find_one (has_email email) s.users ≡ some u
      → user_live u ≡ true
      → later ≤ now + fifteen_minutes
      → All (λ r. has_code otp r ≡ false) s.users
      → (reset_password lib otp password salt later (forgot_password lib email otp now s).1).0
        ≡ ok tt
  unfolding reset_password forgot_password send_code
  forgot_password-reset_password email otp password salt now later s u found alive soon unused =
      let f : User → User = set_code otp (now + fifteen_minutes) in
      let P : User → Type 0 = λ r. has_code otp r ≡ true → code_expired r later ≡ false in
      let all : All P (update_rows (has_user_id u.id) f s.users) =
        All-update_rows P (has_user_id u.id) f s.users
          (All-of_mem P s.users (λ r m h.
            let f : has_code otp r ≡ false =
              All-mem (λ r. has_code otp r ≡ false) s.users unused m in
            cc))
          (λ r h k l. ground arith) in
      let (x, e) =
        find_one_total lib.users (has_code otp) (update_rows (has_user_id u.id) f s.users) (f u)
          (mem-update_rows_hit (has_user_id u.id) f s.users (lib.users.find_one_listed _ _ u found)
            (==_refl u.id))
          alive (str_eq_refl otp) in
      let fresh : code_expired x later ≡ false =
        All-mem P _ all (lib.users.find_one_listed _ _ x e) (lib.users.find_one_fits _ _ x e) in
      ap (λ r. r.0)
        (reset_found otp password salt later _ x (rw (forgot_found email otp now s u found) e)
          fresh)
