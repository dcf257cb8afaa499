-- ===== src/Auth/Routes.antt =====
-- apps/api/routers/v1/auth.py and users.py: the routes that change accounts or sessions, after
-- their guards. A route that raises keeps what it has written, since each statement commits by itself.
use slope_monitoring.Common.{
  ℕ, String, Bool, true, false, not, ◌&&◌, Option, none, some, is_some, List, leb, str_eq,
  if◌then◌else◌,
}
use slope_monitoring.Common.Text.{codes, text_eq}
use slope_monitoring.Errors.{Result, ok, err, app, ErrorCode, ◌>>=◌}
use slope_monitoring.Auth.Tokens.{
  TokenPayload, Claims, Decoded, refresh, create_access_token, create_refresh_token, decode_token,
  role_rank,
}
use slope_monitoring.Auth.Accounts.{
  User, Accounts, get_by_id, update_user, count_active_admins, id_of, user_of, record_entry,
  answered, update_role, disable, set_secret, set_mfa_enabled,
}

-- current and current["role"] == "admin"
unfoldable pub is_admin : Option User → Bool
is_admin none = false
is_admin (some u) = str_eq u.role "admin"

module _ (accepts : List ℕ → Bool) where
  -- the result of a statement and the entry after it, or the tables as they were
  unfoldable pub then_entry :
      Option (List ℕ) → String → List ℕ → Accounts → Result Accounts → Result (Unit {0}) × Accounts
  then_entry actor action target a (err e) = (err e, a)
  then_entry actor action target a (ok b) =
      answered (ok tt) b (record_entry accepts actor action target b)

  unfoldable pub change_role :
      List ℕ → List ℕ → String → Accounts → Result (Option ℕ) → Result (Unit {0}) × Accounts
  change_role actor user_id role a (err e) = (err e, a)
  change_role actor user_id role a (ok id) =
      if text_eq user_id actor
        && not (str_eq role "admin")
        && is_admin (user_of id a.users)
        && leb (count_active_admins a.users) 1
      then (err (app ErrorCode.validation_error), a)
      else then_entry (some actor) "user.update_role" user_id a (update_role id role a)

  -- PUT /users/{user_id}/role; `actor` is the sub of the session, which has the role admin
  unfoldable pub update_user_role :
      List ℕ → List ℕ → String → Accounts → Result (Unit {0}) × Accounts
  update_user_role actor user_id role a =
      if not (is_some (role_rank role))
      then (err (app ErrorCode.validation_error), a)
      else change_role actor user_id role a (id_of user_id)

  -- the statement, on the tables with the entry
  unfoldable pub disable_written : Accounts → Result Accounts → Result (Unit {0}) × Accounts
  disable_written written (err e) = (err e, written)
  disable_written written (ok b) = (ok tt, b)

  -- the entry is written before the statement
  unfoldable pub disable_recorded :
      Option ℕ → ℕ → Accounts → Result Accounts → Result (Unit {0}) × Accounts
  disable_recorded id now a (err e) = (err e, a)
  disable_recorded id now a (ok written) = disable_written written (disable id now written)

  unfoldable pub disable_found :
      ℕ → List ℕ → List ℕ → Accounts → Result (Option ℕ) → Result (Unit {0}) × Accounts
  disable_found now actor user_id a (err e) = (err e, a)
  disable_found now actor user_id a (ok id) =
      if is_admin (user_of id a.users) && leb (count_active_admins a.users) 1
      then (err (app ErrorCode.validation_error), a)
      else disable_recorded id now a (record_entry accepts (some actor) "user.disable" user_id a)

  -- DELETE /users/{user_id}
  unfoldable pub disable_user : ℕ → List ℕ → List ℕ → Accounts → Result (Unit {0}) × Accounts
  disable_user now actor user_id a =
      if text_eq user_id actor
      then (err (app ErrorCode.validation_error), a)
      else disable_found now actor user_id a (id_of user_id)

-- mfa_verify's answer
pub record Verified : Type 0 where
  pub mfa_enabled : Bool
  pub access_token : Option String

module _ (encode : Claims → String) (decode : ℕ → String → Decoded)
    (verify_code : String → String → ℕ → Bool) (accepts : List ℕ → Bool) where
  -- POST /auth/refresh
  unfoldable pub refresh_endpoint : ℕ → String → Result (String × String)
  refresh_endpoint now token = decode_token encode decode now token refresh >>= λ payload. ok (
    create_access_token encode decode payload now,
    create_refresh_token encode decode payload now,
  )

  -- POST /auth/mfa/enroll, with the secret that `generate_secret` returns
  unfoldable pub enroll_found :
      String → TokenPayload → Accounts → Result (Option ℕ) → Result String × Accounts
  enroll_found secret user a (err e) = (err e, a)
  enroll_found secret user a (ok none) = (err (app ErrorCode.not_found), a)
  enroll_found secret user a (ok (some id)) = elim (get_by_id id a.users) [
    | none ↦ (err (app ErrorCode.not_found), a)
    | some account ↦
        let stored = record a { users = update_user id (set_secret secret) a.users } in
        answered (ok secret) stored
          (record_entry accepts (some user.sub) "mfa.enroll" (codes account.email) stored)
  ]

  unfoldable pub mfa_enroll : String → TokenPayload → Accounts → Result String × Accounts
  mfa_enroll secret user a = enroll_found secret user a (id_of user.sub)

  unfoldable pub is_truthy : Option String → Bool
  is_truthy none = false
  is_truthy (some s) = not (str_eq s "")

  unfoldable pub check_code : ℕ → String → Option String → Bool
  check_code now code none = false
  check_code now code (some secret) = verify_code secret code now

  unfoldable pub verify_account :
      ℕ → String → TokenPayload → ℕ → User → Accounts → Result Verified × Accounts
  verify_account now code user id account a =
      let confirmed = record a { users = update_user id set_mfa_enabled a.users } in
      if not (is_truthy account.mfa_secret)
      then (err (app ErrorCode.validation_error), a)
      else if not (check_code now code account.mfa_secret)
      then answered (err (app ErrorCode.invalid_credentials)) a
          (record_entry accepts (some user.sub) "mfa.verify.failure" (codes account.email) a)
      else if not account.mfa_enabled
      then answered (ok (record { mfa_enabled = true; access_token = none })) confirmed (
          record_entry accepts (some user.sub) "mfa.enroll.confirmed" (codes account.email)
            confirmed)
      else answered
          (ok (record {
            mfa_enabled = true;
            access_token = some (
                create_access_token encode decode
                  (record { sub = user.sub; role = user.role; mfa_verified = true }) now);
          }))
          a (record_entry accepts (some user.sub) "mfa.verify.success" (codes account.email) a)

  unfoldable pub verify_found :
      ℕ → String → TokenPayload → Accounts → Result (Option ℕ) → Result Verified × Accounts
  verify_found now code user a (err e) = (err e, a)
  verify_found now code user a (ok none) = (err (app ErrorCode.not_found), a)
  verify_found now code user a (ok (some id)) = elim (get_by_id id a.users) [
    | none ↦ (err (app ErrorCode.not_found), a)
    | some account ↦ verify_account now code user id account a
  ]

  -- POST /auth/mfa/verify
  unfoldable pub mfa_verify : ℕ → String → TokenPayload → Accounts → Result Verified × Accounts
  mfa_verify now code user a = verify_found now code user a (id_of user.sub)
