-- ===== src/Auth/Sessions.antt =====
-- Sessions: whom `login` admits, and what `logout` does to the refresh token.
use edu_crm_backend.Auth.Store.{access, refresh, JwtPayload, Libraries, Store}
use edu_crm_backend.Auth.Login.{
  validate_user, is_locked, by_email, LoginDto, check_two_fa, login, check_status,
}
use edu_crm_backend.Base.{
  Bool-cases, ◌⊎◌, Option-cases, All, arith, inr, inl, refl, none, or_else, some, ℕ, true, false,
  String, Bool, ◌≡◌,
}
use edu_crm_backend.Shared.Enums.{UserStatus}
use edu_crm_backend.Auth.Session.{invalid_refresh, refresh_body, refresh_token, logout}
use edu_crm_backend.Users.Entity.{has_user_id, User, truthy}
use edu_crm_backend.Base.Action.{Error, err, Result-cases, ok}
use edu_crm_backend.Database.{Uuid, Instant}
use edu_crm_backend.Auth.Tokens.{
  build_user_payload, generate_tokens, set_refresh_token, LoginResponse,
}
use edu_crm_backend.Auth.Lockout.{validated}
use edu_crm_backend.Database.Rows.{All-update_rows_set, update_rows}
use edu_crm_backend.Database.Lookup.{All-find_one}
use edu_crm_backend.Access.Tables.{permissions_for_role}

-- The statuses with which an account may log in.
abbrev pub admitted : UserStatus → Bool
admitted UserStatus.suspended = false
admitted UserStatus.blocked = false
admitted UserStatus.pending = false
admitted _ = true

module _ (lib : Libraries) where
  -- The tokens and the report of a user.
  abbrev pub AnswerFor : User → Instant → LoginResponse → Type 0
  AnswerFor u now r =
      let payload : JwtPayload = record {
        sub = u.id;
        email = u.email;
        role = u.role;
        tenant_id = u.tenant_id;
      } in
      (r.tokens.access_token ≡ lib.sign access payload now)
      × (r.tokens.refresh_token ≡ lib.sign refresh payload now)
      × (r.user.id ≡ u.id)
      × (r.user.email ≡ u.email)
      × (r.user.role ≡ u.role)
      × (r.user.tenant_id ≡ u.tenant_id)
      × (r.user.permissions ≡ permissions_for_role u.role)

  -- What `login` runs after the password.
  login_status :
      (dto : LoginDto) (ip : String) (salt : ℕ) (now : Instant) (s : Store) (r : LoginResponse)
      (u : User)
      → (validate_user lib dto.email dto.password none now s).0 ≡ ok (some u)
      → (login lib dto ip salt now s).0 ≡ ok r
      → (admitted u.status ≡ true)
        × ((u.two_fa_enabled ≡ false)
            ⊎ (lib.totp_verify none (or_else dto.two_fa_token "") now ≡ ok true))
  unfolding login check_status check_two_fa
  login_status dto ip salt now s r u found e = elim (Bool-cases u.two_fa_enabled) [
    | inl on ↦ (ground arith, inr (ground arith))
    | inr off ↦ (ground arith, inl off)
  ]

  login_answer :
      (dto : LoginDto) (ip : String) (salt : ℕ) (now : Instant) (s : Store) (r : LoginResponse)
      (u : User)
      → (validate_user lib dto.email dto.password none now s).0 ≡ ok (some u)
      → (login lib dto ip salt now s).0 ≡ ok r
      → AnswerFor u now r
  unfolding login check_status check_two_fa generate_tokens build_user_payload
  login_answer dto ip salt now s r u found e = ground arith

  -- Whoever logs in is the one registered under the email, gave a right password, is not locked
  -- out, and has none of the statuses suspended, blocked and pending; the second factor is disabled,
  -- or a check of the given code without a secret succeeded. Both tokens of the answer are signed for
  -- that user's id, email, role and tenant, and the answer tells of that user: these four, and the
  -- permissions of the role.
  pub login_admits :
      (dto : LoginDto) (ip : String) (salt : ℕ) (now : Instant) (s : Store) (r : LoginResponse)
      → (login lib dto ip salt now s).0 ≡ ok r
      → (u : User) × (lib.users.find_one (by_email dto.email none) s.users ≡ some u)
        × (lib.compare dto.password u.password ≡ true)
        × (is_locked u now ≡ false)
        × (admitted u.status ≡ true)
        × ((u.two_fa_enabled ≡ false)
            ⊎ (lib.totp_verify none (or_else dto.two_fa_token "") now ≡ ok true))
        × AnswerFor u now r
  unfolding login check_two_fa
  login_admits dto ip salt now s r e =
      elim (Result-cases (validate_user lib dto.email dto.password none now s).0) [
        | inl (x, failed) ↦ absurd (ground arith)
        | inr (none, nobody) ↦ absurd (ground arith)
        | inr (some u, found) ↦
            let (f, open_, right, _) = validated lib dto.email dto.password none now s u found in
            let (st, two) = login_status dto ip salt now s r u found e in
            (u, f, right, open_, st, two, login_answer dto ip salt now s r u found e)
      ]

  -- A user with the second factor enabled cannot log in, whatever the code, where the check of a code
  -- without a secret does not succeed: the secret is never loaded.
  pub login_two_fa :
      (dto : LoginDto) (ip : String) (salt : ℕ) (now : Instant) (s : Store) (u : User)
      → ((token : String) → ¬ (lib.totp_verify none token now ≡ ok true))
      → lib.users.find_one (by_email dto.email none) s.users ≡ some u
      → u.two_fa_enabled ≡ true
      → (e : Error) × ((login lib dto ip salt now s).0 ≡ err e)
  login_two_fa dto ip salt now s u none_right found on =
      elim (Result-cases (login lib dto ip salt now s).0) [
        | inl refused ↦ refused
        | inr (r, done) ↦
            let (v, f, _, _, _, two, _) = login_admits dto ip salt now s r done in
            elim two [
              | inl off ↦ let same : u ≡ v = cc (found, f) in cc (rw (← same) at off)
              | inr good ↦ absurd (none_right _ good)
            ]
      ]

  logout_users :
      (user_id : Uuid) (s : Store)
      → (logout lib user_id s).1.users
        ≡ update_rows (has_user_id user_id) (set_refresh_token "") s.users
  unfolding logout
  logout_users user_id s = lib.users.update_lem _ _ _

  refresh_nobody :
      (token : String) (payload : JwtPayload) (salt : ℕ) (now : Instant) (s : Store)
      → lib.verify refresh token now ≡ some payload
      → lib.users.find_one (has_user_id payload.sub) s.users ≡ none
      → refresh_token lib token salt now s ≡ (err invalid_refresh, s)
  unfolding refresh_token refresh_body
  refresh_nobody token payload salt now s v missed = ground arith

  refresh_ended :
      (token : String) (payload : JwtPayload) (salt : ℕ) (now : Instant) (s : Store) (u : User)
      → lib.verify refresh token now ≡ some payload
      → lib.users.find_one (has_user_id payload.sub) s.users ≡ some u
      → truthy u.refresh_token ≡ false
      → refresh_token lib token salt now s ≡ (err invalid_refresh, s)
  unfolding refresh_token refresh_body
  refresh_ended token payload salt now s u v found out = ground arith

  -- After a logout a refresh with any token that names the user is refused, whatever the hashes
  -- compare to, and nothing is written.
  pub logout-refresh_token :
      (user_id : Uuid) (token : String) (payload : JwtPayload) (salt : ℕ) (now : Instant)
      (s : Store)
      → lib.verify refresh token now ≡ some payload
      → payload.sub ≡ user_id
      → refresh_token lib token salt now (logout lib user_id s).1
        ≡ (err invalid_refresh, (logout lib user_id s).1)
  logout-refresh_token user_id token payload salt now s v same =
      let P : User → Type 0 = λ r. has_user_id user_id r ≡ true → truthy r.refresh_token ≡ false in
      let rows = update_rows (has_user_id user_id) (set_refresh_token "") s.users in
      let all : All P rows =
        All-update_rows_set P (has_user_id user_id) (set_refresh_token "") s.users (λ r h k. refl)
          (λ r h k. cc) in
      let same_rows : (logout lib user_id s).1.users ≡ rows = logout_users user_id s in
      elim (Option-cases (lib.users.find_one (has_user_id payload.sub) rows)) [
        | inl missed ↦ refresh_nobody token payload salt now _ v (rw same_rows missed)
        | inr (q, found) ↦
            let out : truthy q.refresh_token ≡ false =
              All-find_one lib.users P _ rows q all found
                (rw same at (lib.users.find_one_fits _ _ q found)) in
            refresh_ended token payload salt now _ q v (rw same_rows found) out
      ]
