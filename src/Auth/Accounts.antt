-- ===== src/Auth/Accounts.antt =====
-- services/auth_service/user_service.py: the table of users, its statements and the login. Hashing of
-- passwords, and what the trigger of the audit table takes, are parameters.
use slope_monitoring.Common.{
  ℕ, suc, String, Bool, true, false, not, ◌&&◌, Option, none, some, is_some, List, [], ◌∷◌, ◌==◌,
  str_eq, if◌then◌else◌,
}
use slope_monitoring.Common.Int.{ℤ, pos, negsuc}
use slope_monitoring.Common.Text.{codes, show_int, int_of_text}
use slope_monitoring.Errors.{runtime_error, Result, ok, err, app, ErrorCode, value_error}
use slope_monitoring.Auth.Tokens.{
  TokenPayload, Claims, Decoded, create_access_token, create_refresh_token,
}

-- users, with UNIQUE (email)
pub record User : Type 0 where
  pub user_id : ℕ
  pub email : String
  pub password_hash : String
  pub role : String
  pub mfa_enabled : Bool
  pub mfa_secret : Option String
  pub disabled_at : Option ℕ

-- audit_log: who, what, and the target
pub record Entry : Type 0 where
  pub actor : Option (List ℕ)
  pub action : String
  pub target : List ℕ

pub record Accounts : Type 0 where
  pub users : List User
  pub next_user : ℕ
  pub audit : List Entry

unfoldable pub get_by_email : String → List User → Option User
get_by_email email [] = none
get_by_email email (u ∷ us) = if str_eq u.email email then some u else get_by_email email us

unfoldable pub get_by_id : ℕ → List User → Option User
get_by_id id [] = none
get_by_id id (u ∷ us) = if u.user_id == id then some u else get_by_id id us

-- UPDATE users SET ... WHERE user_id = $1
unfoldable pub update_user : ℕ → (User → User) → List User → List User
update_user id f [] = []
update_user id f (u ∷ us) =
    if u.user_id == id then f u ∷ update_user id f us else u ∷ update_user id f us

-- role = 'admin' AND disabled_at IS NULL
unfoldable pub is_active_admin : User → Bool
is_active_admin u = str_eq u.role "admin" && not (is_some u.disabled_at)

unfoldable pub count_active_admins : List User → ℕ
count_active_admins [] = 0
count_active_admins (u ∷ us) =
    if is_active_admin u then suc (count_active_admins us) else count_active_admins us

-- int(user_id), for the column; there is no user of a negative id
unfoldable pub column_of : Option ℤ → Result (Option ℕ)
column_of none = err value_error
column_of (some (pos n)) = ok (some n)
column_of (some (negsuc n)) = ok none

unfoldable pub id_of : List ℕ → Result (Option ℕ)
id_of user_id = column_of (int_of_text user_id)

unfoldable pub user_of : Option ℕ → List User → Option User
user_of none us = none
user_of (some n) us = get_by_id n us

-- The insert of an entry. `accepts` says whether the trigger of the table lets a user target in; where
-- it does not, the insert raises.
unfoldable pub record_entry :
    (List ℕ → Bool) → Option (List ℕ) → String → List ℕ → Accounts → Result Accounts
record_entry accepts actor action target a =
    if accepts target
    then ok
        (record a { audit = record { actor = actor; action = action; target = target } ∷ a.audit })
    else err runtime_error

-- the answer `r` after an entry; `a` is what the statements before it have left
unfoldable pub answered {ℓ} :
    {A : Type ℓ} → Result A → Accounts → Result Accounts → Result A × Accounts
answered r a (ok b) = (r, b)
answered r a (err e) = (err e, a)

-- UserRepository.update_role
unfoldable pub set_role : String → User → User
set_role role u = record u { role = role }

unfoldable pub update_role : Option ℕ → String → Accounts → Result Accounts
update_role none role a = err (app ErrorCode.not_found)
update_role (some id) role a =
    if is_some (get_by_id id a.users)
    then ok (record a { users = update_user id (set_role role) a.users })
    else err (app ErrorCode.not_found)

unfoldable pub set_disabled : ℕ → User → User
set_disabled now u = record u { disabled_at = some now }

-- the row that `WHERE user_id = $1 AND disabled_at IS NULL` selects
unfoldable pub is_enabled : Option User → Bool
is_enabled none = false
is_enabled (some u) = not (is_some u.disabled_at)

-- UserRepository.disable
unfoldable pub disable : Option ℕ → ℕ → Accounts → Result Accounts
disable none now a = err (app ErrorCode.not_found)
disable (some id) now a =
    if is_enabled (get_by_id id a.users)
    then ok (record a { users = update_user id (set_disabled now) a.users })
    else err (app ErrorCode.not_found)

unfoldable pub set_secret : String → User → User
set_secret secret u = record u { mfa_secret = some secret }

unfoldable pub set_mfa_enabled : User → User
set_mfa_enabled u = record u { mfa_enabled = true }

pub record LoginResult : Type 0 where
  pub access_token : String
  pub refresh_token : String
  pub role : String

module _ (encode : Claims → String) (decode : ℕ → String → Decoded)
    (verify_password : String → String → Bool) (accepts : List ℕ → Bool) where
  unfoldable pub session_of : User → TokenPayload
  session_of u = record {
    sub = show_int (pos u.user_id);
    role = u.role;
    mfa_verified = not u.mfa_enabled;
  }

  unfoldable pub login_user :
      ℕ → String → String → Option User → Accounts → Result LoginResult × Accounts
  login_user now email password none a =
      answered (err (app ErrorCode.invalid_credentials)) a
        (record_entry accepts none "login.failure" (codes email) a)
  login_user now email password (some u) a =
      if not (verify_password password u.password_hash)
      then answered (err (app ErrorCode.invalid_credentials)) a
          (record_entry accepts none "login.failure" (codes email) a)
      else if is_some u.disabled_at
      then answered (err (app ErrorCode.invalid_credentials)) a (
          record_entry accepts (some (show_int (pos u.user_id))) "login.failure_disabled"
            (codes email) a)
      else answered
          (ok (record {
            access_token = create_access_token encode decode (session_of u) now;
            refresh_token = create_refresh_token encode decode (session_of u) now;
            role = u.role;
          }))
          a (record_entry accepts (some (show_int (pos u.user_id))) "login.success" (codes email) a)

  unfoldable pub login : ℕ → String → String → Accounts → Result LoginResult × Accounts
  login now email password a = login_user now email password (get_by_email email a.users) a
