-- ===== src/Auth/Tokens.antt =====
-- common/security.py and the guards of apps/api/dependencies.py. The JWT library is a parameter: how it
-- encodes claims, and what it decodes a token to at a time, in seconds.
use slope_monitoring.Common.{
  ℕ, ◌+◌, ◌*◌, String, Bool, true, false, not, Option, none, some, List, leb, str_eq, if◌then◌else◌,
}
use slope_monitoring.Common.Text.{codes, lower, text_eq}
use slope_monitoring.Errors.{Result, ok, err, app, ErrorCode, ◌>>=◌}

pub record TokenPayload : Type 0 where
  pub sub : List ℕ
  pub role : String
  pub mfa_verified : Bool

pub data TokenType : Type 0 where
  access refresh : TokenType

pub record Claims : Type 0 where
  pub sub : List ℕ
  pub role : String
  pub mfa : Bool
  pub type : TokenType
  pub iat : ℕ
  pub exp : ℕ

-- what jwt.decode returns or raises
pub data Decoded : Type 0 where
  valid : Claims → Decoded
  expired invalid : Decoded

unfoldable pub same_type : TokenType → TokenType → Bool
same_type access access = true
same_type refresh refresh = true
same_type t u = false

-- ROLE_RANK
unfoldable pub role_rank : String → Option ℕ
role_rank role =
    if str_eq role "viewer"
    then some 0
    else if str_eq role "operator"
    then some 1
    else if str_eq role "admin"
    then some 2
    else none

-- ROLE_RANK.get(actual, -1) >= ROLE_RANK.get(required, 99)
unfoldable pub rank_satisfies : Option ℕ → Option ℕ → Bool
rank_satisfies none required = false
rank_satisfies (some a) none = leb 99 a
rank_satisfies (some a) (some r) = leb r a

unfoldable pub role_satisfies : String → String → Bool
role_satisfies actual_role required_role =
    rank_satisfies (role_rank actual_role) (role_rank required_role)

abbrev pub access_ttl : ℕ
access_ttl = 15 * 60

abbrev pub refresh_ttl : ℕ
refresh_ttl = 7 * 86400

module _ (encode : Claims → String) (decode : ℕ → String → Decoded) where
  unfoldable pub create_token : TokenPayload → ℕ → TokenType → ℕ → String
  create_token payload ttl type now = encode (record {
    sub = payload.sub;
    role = payload.role;
    mfa = payload.mfa_verified;
    type = type;
    iat = now;
    exp = now + ttl;
  })

  unfoldable pub create_access_token : TokenPayload → ℕ → String
  create_access_token payload now = create_token payload access_ttl access now

  unfoldable pub create_refresh_token : TokenPayload → ℕ → String
  create_refresh_token payload now = create_token payload refresh_ttl refresh now

  unfoldable pub payload_of : TokenType → Decoded → Result TokenPayload
  payload_of expected_type expired = err (app ErrorCode.token_expired)
  payload_of expected_type invalid = err (app ErrorCode.token_invalid)
  payload_of expected_type (valid c) =
      if same_type c.type expected_type
      then ok (record { sub = c.sub; role = c.role; mfa_verified = c.mfa })
      else err (app ErrorCode.token_invalid)

  unfoldable pub decode_token : ℕ → String → TokenType → Result TokenPayload
  decode_token now token expected_type = payload_of expected_type (decode now token)

  -- the scheme and the token of the header, or none; the HTTPException of the code has status 401
  unfoldable pub get_current_user : ℕ → Option (List ℕ × String) → Result TokenPayload
  get_current_user now none = err (app ErrorCode.unauthenticated)
  get_current_user now (some creds) =
      if text_eq (lower creds.0) (codes "bearer")
      then decode_token now creds.1 access
      else err (app ErrorCode.unauthenticated)

  unfoldable pub require_role : String → ℕ → Option (List ℕ × String) → Result TokenPayload
  require_role min_role now creds = get_current_user now creds >>= λ user.
      if role_satisfies user.role min_role then ok user else err (app ErrorCode.forbidden_role)

  -- `enforced` is false where MFA_ENFORCEMENT_ENABLED is "false"
  unfoldable pub require_role_and_mfa :
      Bool → String → ℕ → Option (List ℕ × String) → Result TokenPayload
  require_role_and_mfa enforced min_role now creds = require_role min_role now creds >>= λ user.
      if not enforced
      then ok user
      else if user.mfa_verified
      then ok user
      else err (app ErrorCode.forbidden_role)
