-- ===== src/Auth/Lockout.antt =====
-- The lockout of `validateUser`: wrong passwords in a row, what they lead to, and what ends it.
use mathlib.Core.Path.{ap₂}
use edu_crm_backend.Base.{
  ◌++◌, refl, ◌<◌, All, ==_refl, ◌==◌, ◌&&◌, length, str_eq, ◌∷◌, [], ap, ◌∙◌, inr, inl, List,
  Option-cases, none, arith, ◌+◌, leb, if◌then◌else◌, true, some, false, Option, String, ◌≡◌,
}
use edu_crm_backend.Auth.Store.{Libraries, Store}
use edu_crm_backend.Auth.Login.{
  set_attempts, lock_minutes, set_locked, set_validated, by_email, is_locked, validate_user,
  validate_found,
}
use edu_crm_backend.Users.Entity.{has_user_id, User}
use edu_crm_backend.Database.{Uuid, Instant}
use edu_crm_backend.Base.Action.{unauthorized, err, ok}
use edu_crm_backend.Database.Rows.{update_rows}
use edu_crm_backend.Database.Lookup.{OnlyMatch-update_rows, find_one-update_only, OnlyMatch}

by_email_keeps :
    (email : String) (tenant_id : Option Uuid) (f : User → User)
    → ((r : User) → (f r).email ≡ r.email)
    → ((r : User) → (f r).tenant_id ≡ r.tenant_id)
    → (r : User) → by_email email tenant_id (f r) ≡ by_email email tenant_id r
by_email_keeps email none f h k r = ap (λ e. str_eq e email) (h r)
by_email_keeps email (some t) f h k r = ap₂ (λ e i. str_eq e email && i == t) (h r) (k r)

module _ (lib : Libraries) where
  -- What a wrong password does to the table, by the count before it.
  pub wrong_password :
      (user : User) (password : String) (now : Instant) (s : Store)
      → is_locked user now ≡ false
      → lib.compare password user.password ≡ false
      → validate_found lib (some user) password now s ≡ (
          if leb 5 (user.login_attempts + 1)
          then (
            err (unauthorized "Account locked for 15 minutes due to too many failed attempts."),
            record s {
              users =
                  update_rows
                    (has_user_id user.id)
                    (set_locked (user.login_attempts + 1) (now + lock_minutes))
                    s.users;
            },
          )
          else (
            ok none,
            record s {
              users =
                  update_rows
                    (has_user_id user.id)
                    (set_attempts (user.login_attempts + 1))
                    s.users;
            },
          ))
  unfolding validate_found
  wrong_password user password now s open_ wrong = ground (
    arith,
    lib.users.update_lem (has_user_id user.id)
        (set_locked (user.login_attempts + 1) (now + lock_minutes)) s.users,
    lib.users.update_lem (has_user_id user.id) (set_attempts (user.login_attempts + 1)) s.users,
  )

  -- A locked account is refused whatever the password, and nothing is written.
  pub locked_refused :
      (email password : String) (tenant_id : Option Uuid) (now : Instant) (s : Store) (user : User)
      → lib.users.find_one (by_email email tenant_id) s.users ≡ some user
      → is_locked user now ≡ true
      → validate_user lib email password tenant_id now s
        ≡ (err (unauthorized "Account is locked."), s)
  unfolding validate_user
  locked_refused email password tenant_id now s user e locked = ground arith

  validated_found :
      (u user : User) (password : String) (now : Instant) (s : Store)
      → (validate_found lib (some u) password now s).0 ≡ ok (some user)
      → (u ≡ user) × (is_locked u now ≡ false) × (lib.compare password u.password ≡ true)
  unfolding validate_found
  validated_found u user password now s e = (ground arith, ground arith, ground arith)

  accepted_users :
      (u : User) (password : String) (now : Instant) (s : Store)
      → is_locked u now ≡ false
      → lib.compare password u.password ≡ true
      → (validate_found lib (some u) password now s).1.users
        ≡ update_rows (has_user_id u.id) (set_validated now) s.users
  unfolding validate_found
  accepted_users u password now s open_ right =
      ground (arith, lib.users.update_lem (has_user_id u.id) (set_validated now) s.users)

  -- Whoever is let through had a right password and was not locked, and the count starts anew.
  pub validated :
      (email password : String) (tenant_id : Option Uuid) (now : Instant) (s : Store) (user : User)
      → (validate_user lib email password tenant_id now s).0 ≡ ok (some user)
      → (lib.users.find_one (by_email email tenant_id) s.users ≡ some user)
        × (is_locked user now ≡ false)
        × (lib.compare password user.password ≡ true)
        × ((validate_user lib email password tenant_id now s).1.users
            ≡ update_rows (has_user_id user.id) (set_validated now) s.users)
  unfolding validate_user validate_found
  validated email password tenant_id now s user e =
      elim (Option-cases (lib.users.find_one (by_email email tenant_id) s.users)) [
        | inl missed ↦ absurd (ground arith)
        | inr (u, found) ↦
            let e' : (validate_found lib (some u) password now s).0 ≡ ok (some user) =
              rw found at e in
            let (same, open_, right) = validated_found u user password now s e' in
            (
              found ∙ ap some same,
              rw (← same) open_,
              rw (← same) right,
              rw (found, ← same) (accepted_users u password now s open_ right),
            )
      ]

  -- Attempts one after another, whatever each of them answers.
  pub tries : String → Option Uuid → List (String × Instant) → Store → Store
  tries email tenant_id [] s = s
  tries email tenant_id ((password, now) ∷ more) s =
      tries email tenant_id more (validate_user lib email password tenant_id now s).1

  -- One wrong password below the limit: the row is counted up and is still the one found.
  counted :
      (email : String) (tenant_id : Option Uuid) (password : String) (now : Instant) (s : Store)
      (u : User)
      → lib.users.find_one (by_email email tenant_id) s.users ≡ some u
      → OnlyMatch (by_email email tenant_id) s.users u
      → is_locked u now ≡ false
      → lib.compare password u.password ≡ false
      → leb 5 (u.login_attempts + 1) ≡ false
      → let s' = (validate_user lib email password tenant_id now s).1 in
        (lib.users.find_one (by_email email tenant_id) s'.users
          ≡ some (set_attempts (u.login_attempts + 1) u))
        × OnlyMatch (by_email email tenant_id) s'.users (set_attempts (u.login_attempts + 1) u)
  unfolding validate_user
  counted email tenant_id password now s u found only open_ wrong below =
      let f : User → User = set_attempts (u.login_attempts + 1) in
      rw (found, wrong_password u password now s open_ wrong, below)
        (
          find_one-update_only lib.users (by_email email tenant_id) (has_user_id u.id) f s.users u
              found only (by_email_keeps email tenant_id f (λ r. refl) (λ r. refl)) (λ r. refl)
              (==_refl u.id),
          OnlyMatch-update_rows (by_email email tenant_id) (has_user_id u.id) f s.users u only
              (by_email_keeps email tenant_id f (λ r. refl) (λ r. refl)) (==_refl u.id),
        )

  locked_found :
      (email : String) (tenant_id : Option Uuid) (password : String) (now : Instant) (s : Store)
      (u : User)
      → lib.users.find_one (by_email email tenant_id) s.users ≡ some u
      → OnlyMatch (by_email email tenant_id) s.users u
      → is_locked u now ≡ false
      → lib.compare password u.password ≡ false
      → leb 5 (u.login_attempts + 1) ≡ true
      → let s' = (validate_user lib email password tenant_id now s).1 in
        lib.users.find_one (by_email email tenant_id) s'.users
        ≡ some (set_locked (u.login_attempts + 1) (now + lock_minutes) u)
  unfolding validate_user
  locked_found email tenant_id password now s u found only open_ wrong over =
      let f : User → User = set_locked (u.login_attempts + 1) (now + lock_minutes) in
      rw (found, wrong_password u password now s open_ wrong, over)
        (find_one-update_only lib.users (by_email email tenant_id) (has_user_id u.id) f s.users u
          found only (by_email_keeps email tenant_id f (λ r. refl) (λ r. refl)) (λ r. refl)
          (==_refl u.id))

  -- Wrong passwords in a row that reach the fifth failure lock the account: after attempts with
  -- wrong passwords only, as many as are missing to five, on an account that was not locked and
  -- is the only one with the email, every attempt before fifteen minutes after the last one have
  -- passed is refused, the right password included.
  pub wrong_passwords_lock :
      (email : String) (tenant_id : Option Uuid) (attempts : List (String × Instant))
      (last : String) (now : Instant) (s : Store) (u : User)
      → lib.users.find_one (by_email email tenant_id) s.users ≡ some u
      → OnlyMatch (by_email email tenant_id) s.users u
      → u.locked_until ≡ none
      → u.login_attempts + length attempts ≡ 4
      → All (λ a. lib.compare a.0 u.password ≡ false) attempts
      → lib.compare last u.password ≡ false
      → (password : String) (later : Instant) → later < now + lock_minutes
      → let s' = tries email tenant_id (attempts ++ (last, now) ∷ []) s in
        validate_user lib email password tenant_id later s'
        ≡ (err (unauthorized "Account is locked."), s')
  unfolding tries
  wrong_passwords_lock email tenant_id [] last now s u found only free four wrong final password
        later soon =
      locked_refused email password tenant_id later _ _
        (locked_found email tenant_id last now s u found only (rw free refl) final (ground arith))
        (ground arith)
  wrong_passwords_lock email tenant_id ((p, t) ∷ more) last now s u found only free four (w, ws)
        final password later soon =
      let (found', only') =
        counted email tenant_id p t s u found only (rw free refl) w (ground arith) in
      wrong_passwords_lock email tenant_id more last now _ _ found' only' free (omega arith) ws
        final password later soon
