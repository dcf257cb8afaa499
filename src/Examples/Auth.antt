-- ===== src/Examples/Auth.antt =====
-- Two admins and an operator, the changes of their accounts and their sessions.
use slope_monitoring.Common.{
  any, ◌==◌, ℕ, ◌+◌, ◌*◌, ◌≤◌, String, ◌≡◌, refl, ap, Bool, true, false, not, ◌&&◌, Option, none,
  some, List, [], ◌∷◌, str_eq, arith, if◌then◌else◌,
}
use slope_monitoring.Common.Text.{codes, text_eq, int_of_text}
use slope_monitoring.Errors.{runtime_error, ok, err, app, ErrorCode}
use slope_monitoring.Auth.Tokens.{
  TokenPayload, TokenType, Claims, Decoded, valid, invalid, access, refresh, access_ttl,
  refresh_ttl, role_satisfies, create_access_token, decode_token, require_role_and_mfa,
}
use slope_monitoring.Auth.Accounts.{
  User, Accounts, count_active_admins, session_of, login, LoginResult, id_of,
}
use slope_monitoring.Auth.Routes.{Verified, update_user_role, disable_user, mfa_enroll, mfa_verify}
use slope_monitoring.Auth.Laws.Admins
use slope_monitoring.Auth.Laws.Sessions
use slope_monitoring.Auth.Laws.Sessions.{claims_of, bearer}

abbrev account : ℕ → String → String → User
account id email role = record {
  user_id = id;
  email = email;
  password_hash = "hash";
  role = role;
  mfa_enabled = true;
  mfa_secret = some "old";
  disabled_at = none;
}

abbrev accounts : Accounts
accounts = record {
  users = account 7 "a@b" "admin" ∷ account 8 "c@d" "operator" ∷ [];
  next_user = 9;
  audit = [];
}

-- the trigger validate_audit_log_target of the database, for a user: NEW.target_id ~ '@'
abbrev has_at : List ℕ → Bool
has_at target = any (λ c. c == 64) target

-- an account that is named by its number is not disabled: the entry, which comes first, is refused
never_disabled :
    disable_user has_at 100 (codes "7") (codes "8") accounts ≡ (err runtime_error, accounts)
unfolding disable_user text_eq slope_monitoring.Auth.Routes.disable_found id_of
    slope_monitoring.Auth.Accounts.column_of int_of_text slope_monitoring.Auth.Routes.is_admin
    slope_monitoring.Auth.Accounts.user_of slope_monitoring.Auth.Accounts.get_by_id
    slope_monitoring.Auth.Routes.disable_recorded slope_monitoring.Auth.Accounts.record_entry
never_disabled = refl

-- a role is changed, and the answer is an error all the same
changed_with_error :
    (update_user_role has_at (codes "7") (codes "8") "viewer" accounts).0 ≡ err runtime_error
unfolding update_user_role slope_monitoring.Auth.Tokens.role_rank
    slope_monitoring.Auth.Routes.change_role id_of slope_monitoring.Auth.Accounts.column_of
    int_of_text text_eq slope_monitoring.Auth.Routes.then_entry
    slope_monitoring.Auth.Accounts.update_role slope_monitoring.Auth.Accounts.get_by_id
    slope_monitoring.Auth.Accounts.answered slope_monitoring.Auth.Accounts.record_entry
changed_with_error = refl

disable_user-keeps_admin_example :
    1 ≤ count_active_admins (disable_user has_at 100 (codes "7") (codes "8") accounts).1.users
unfolding slope_monitoring.Auth.Accounts.get_by_id count_active_admins
    slope_monitoring.Auth.Accounts.is_active_admin
disable_user-keeps_admin_example =
    Admins.disable_user-keeps_admin has_at 100 (codes "7") (codes "8") accounts (refl, (refl, tt))
      (omega arith)

id_of_operator : id_of (codes "8") ≡ ok (some 8)
unfolding id_of int_of_text slope_monitoring.Auth.Accounts.column_of
id_of_operator = refl

not_own : id_of (codes "8") ≡ ok (some 7) → ⊥
not_own same = ground (arith, id_of_operator)

update_user_role-keeps_admin_example :
    1
    ≤ count_active_admins (update_user_role has_at (codes "7") (codes "8") "admin" accounts).1.users
unfolding slope_monitoring.Auth.Accounts.get_by_id slope_monitoring.Auth.Accounts.is_active_admin
update_user_role-keeps_admin_example =
    Admins.update_user_role-keeps_admin has_at 7 (codes "7") (codes "8") "admin" accounts
      {u = account 7 "a@b" "admin"} (refl, (refl, tt)) refl refl (λ same. absurd (not_own same))

-- the last admin, who writes his own id as 07, can lose the role
last_admin_lost :
    count_active_admins (update_user_role has_at (codes "7") (codes "07") "viewer" accounts).1.users
    ≡ 0
unfolding count_active_admins update_user_role slope_monitoring.Auth.Tokens.role_rank
    slope_monitoring.Auth.Routes.change_role id_of slope_monitoring.Auth.Accounts.column_of
    int_of_text text_eq slope_monitoring.Auth.Routes.then_entry
    slope_monitoring.Auth.Accounts.update_role slope_monitoring.Auth.Accounts.get_by_id
    slope_monitoring.Auth.Accounts.record_entry slope_monitoring.Auth.Accounts.update_user
    slope_monitoring.Auth.Accounts.is_active_admin slope_monitoring.Auth.Accounts.set_role
    slope_monitoring.Auth.Accounts.answered
last_admin_lost = refl

abbrev password_matches : String → String → Bool
password_matches password hash = str_eq password "secret"

abbrev session : TokenPayload
session = record { sub = codes "8"; role = "operator"; mfa_verified = false }

abbrev encode_type : TokenType → String
encode_type access = "a"
encode_type refresh = "r"

abbrev encode : Claims → String
encode c = encode_type c.type

abbrev decode : ℕ → String → Decoded
decode now token =
    if str_eq token "a"
    then valid (claims_of session access access_ttl 50)
    else if str_eq token "r"
    then valid (claims_of session refresh refresh_ttl 50)
    else invalid

abbrev logged_in : LoginResult
logged_in = record { access_token = "a"; refresh_token = "r"; role = "operator" }

login-require_role_and_mfa_example :
    (require_role_and_mfa encode decode true "operator" 60 (bearer encode decode "a") ≡ (
      if role_satisfies "operator" "operator" && not (true && true)
      then ok session
      else err (app ErrorCode.forbidden_role)))
    × (decode_token encode decode 60 "r" access ≡ err (app ErrorCode.token_invalid))
unfolding session_of slope_monitoring.Common.Text.show_int
    slope_monitoring.Auth.Accounts.get_by_email login slope_monitoring.Auth.Accounts.login_user
    create_access_token slope_monitoring.Auth.Tokens.create_refresh_token
    slope_monitoring.Auth.Tokens.create_token slope_monitoring.Auth.Accounts.answered
    slope_monitoring.Auth.Accounts.record_entry
login-require_role_and_mfa_example =
    Sessions.login-require_role_and_mfa encode decode password_matches has_at true 50 60 "c@d"
      "secret" "operator" accounts {u = account 8 "c@d" "operator"} {r = logged_in} (λ now h. refl)
      (λ now h. refl) refl refl (omega arith)

abbrev code_matches : String → String → ℕ → Bool
code_matches secret code now = str_eq secret "new" && str_eq code "123456"

mfa_enroll-mfa_verify_example :
    (mfa_verify encode decode code_matches has_at 60 "123456" session
      (mfa_enroll encode decode code_matches has_at "new" session accounts).1).0
    ≡ ok (record {
      mfa_enabled = true;
      access_token = some (
          create_access_token encode decode
            (record { sub = session.sub; role = session.role; mfa_verified = true })
            60);
    })
unfolding id_of slope_monitoring.Auth.Accounts.column_of int_of_text
    slope_monitoring.Auth.Accounts.get_by_id
mfa_enroll-mfa_verify_example =
    Sessions.mfa_enroll-mfa_verify encode decode code_matches has_at 60 "new" "123456" session
      accounts 8 {u = account 8 "c@d" "operator"} refl refl refl refl refl refl
