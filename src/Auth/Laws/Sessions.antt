-- ===== src/Auth/Laws/Sessions.antt =====
-- From a login to the guards of the routes.
use slope_monitoring.Common.{
  ℕ, ◌+◌, ◌≤◌, String, ◌≡◌, refl, Bool, true, false, not, ◌&&◌, Option, some, List, [], ◌∷◌, str_eq,
  arith, inl, inr, Bool-cases, if◌then◌else◌, ◌==◌,
}
use slope_monitoring.Common.Text.{codes, text_eq, lower}
use slope_monitoring.Errors.{ok, err, app, ErrorCode}
use slope_monitoring.Auth.Tokens.{
  TokenPayload, TokenType, Claims, Decoded, valid, access, refresh, access_ttl, refresh_ttl,
  same_type, role_satisfies, create_token, create_access_token, create_refresh_token, payload_of,
  decode_token, get_current_user, require_role, require_role_and_mfa,
}
use slope_monitoring.Auth.Accounts.{
  answered, User, Accounts, get_by_email, get_by_id, update_user, LoginResult, session_of,
  login_user, login, id_of, set_secret, record_entry,
}
use slope_monitoring.Auth.Routes.{
  mfa_enroll, enroll_found, mfa_verify, verify_found, verify_account, check_code, is_truthy,
}

abbrev pub claims_of : TokenPayload → TokenType → ℕ → ℕ → Claims
claims_of p type ttl now = record {
  sub = p.sub;
  role = p.role;
  mfa = p.mfa_verified;
  type = type;
  iat = now;
  exp = now + ttl;
}

module _ (encode : Claims → String) (decode : ℕ → String → Decoded) where
  -- what the JWT library documents of a token: it decodes to its claims until it expires
  abbrev pub DecodesUntilExpiry : Claims → Type 0
  DecodesUntilExpiry c = (now : ℕ) → now ≤ c.exp → decode now (encode c) ≡ valid c

  abbrev pub bearer : String → Option (List ℕ × String)
  bearer token = some (codes "Bearer", token)

  current_user-session :
      (p : TokenPayload) (now later : ℕ)
      → DecodesUntilExpiry (claims_of p access access_ttl now)
      → later ≤ now + access_ttl
      → get_current_user encode decode later (bearer (create_access_token encode decode p now))
        ≡ ok p
  unfolding get_current_user create_access_token create_token decode_token payload_of same_type
      text_eq lower
  current_user-session p now later jwt h = rw (jwt later h) refl

  module _ (verify_password : String → String → Bool) (accepts : List ℕ → Bool) where
    login-user :
        (now : ℕ) (email password : String) (a : Accounts) {u : User} {r : LoginResult}
        → get_by_email email a.users ≡ some u
        → (login encode decode verify_password accepts now email password a).0 ≡ ok r
        → (r.access_token
            ≡ create_access_token encode decode
                (session_of encode decode verify_password accepts u)
                now)
          × (r.refresh_token
              ≡ create_refresh_token encode decode
                  (session_of encode decode verify_password accepts u)
                  now)
    unfolding login login_user answered record_entry
    login-user now email password a found h = (ground arith, ground arith)

    -- For the fifteen minutes after a login, and if the JWT library decodes the two tokens to their claims,
    -- the guard of the blast command lets the session through exactly if the role of the account is
    -- enough and, where MFA_ENFORCEMENT_ENABLED is not switched off, the account has no second factor;
    -- the refresh token of the login is not accepted in
    -- place of the access token.
    pub login-require_role_and_mfa :
        (enforced : Bool) (now later : ℕ) (email password min_role : String) (a : Accounts)
        {u : User} {r : LoginResult}
        → DecodesUntilExpiry
            (claims_of (session_of encode decode verify_password accepts u) access access_ttl now)
        → DecodesUntilExpiry
            (claims_of (session_of encode decode verify_password accepts u) refresh refresh_ttl now)
        → get_by_email email a.users ≡ some u
        → (login encode decode verify_password accepts now email password a).0 ≡ ok r
        → later ≤ now + access_ttl
        → (require_role_and_mfa encode decode enforced min_role later (bearer r.access_token) ≡ (
            if role_satisfies u.role min_role && not (enforced && u.mfa_enabled)
            then ok (session_of encode decode verify_password accepts u)
            else err (app ErrorCode.forbidden_role)))
          × (decode_token encode decode later r.refresh_token access
              ≡ err (app ErrorCode.token_invalid))
    unfolding require_role_and_mfa require_role decode_token create_refresh_token create_token
        payload_of same_type session_of
    login-require_role_and_mfa enforced now later email password min_role a {u} jwt jwt_refresh
          found h soon =
        let tokens = login-user now email password a found h in
        let session = session_of encode decode verify_password accepts u in
        let user = current_user-session session now later jwt soon in
        let decoded = jwt_refresh later (omega (arith, soon)) in
        (rw (tokens.0, user) (ground arith), rw (tokens.1, decoded) refl)

  module _ (verify_code : String → String → ℕ → Bool) (accepts : List ℕ → Bool) where
    get_by_id-set_secret :
        (id : ℕ) (secret : String) (us : List User) {u : User}
        → get_by_id id us ≡ some u
        → get_by_id id (update_user id (set_secret secret) us) ≡ some (set_secret secret u)
    unfolding get_by_id update_user set_secret
    get_by_id-set_secret id secret [] h = absurd (ground arith)
    get_by_id-set_secret id secret (v ∷ us) {u} h = elim (Bool-cases (v.user_id == id)) [
      | inl e ↦ ground (arith, e)
      | inr e ↦
          let rest = get_by_id-set_secret id secret us {u = u} (ground (arith, e)) in
          ground (arith, e, rest)
    ]

    -- Of an account with a confirmed second factor, whose address the audit table takes, a session that has not passed it can enrol a
    -- new secret and pass with a code of that one: the enrolment does not reset the account to
    -- unconfirmed, so the verification answers with a token that counts as verified.
    pub mfa_enroll-mfa_verify :
        (now : ℕ) (secret code : String) (user : TokenPayload) (a : Accounts) (id : ℕ) {u : User}
        → id_of user.sub ≡ ok (some id)
        → get_by_id id a.users ≡ some u
        → u.mfa_enabled ≡ true
        → str_eq secret "" ≡ false
        → verify_code secret code now ≡ true
        → accepts (codes u.email) ≡ true
        → (mfa_verify encode decode verify_code accepts now code user
            (mfa_enroll encode decode verify_code accepts secret user a).1).0
          ≡ ok (record {
            mfa_enabled = true;
            access_token = some (
                create_access_token encode decode
                  (record { sub = user.sub; role = user.role; mfa_verified = true })
                  now);
          })
    unfolding mfa_enroll enroll_found mfa_verify verify_found verify_account check_code is_truthy
        set_secret record_entry answered
    mfa_enroll-mfa_verify now secret code user a id {u} is_id found enabled filled right taken =
        let stored = get_by_id-set_secret id secret a.users found in ground (arith, stored)
