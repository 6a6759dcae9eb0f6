-- ===== src/Auth/Tokens.antt =====
-- core/security.py
pub mod Laws
use agentdesk_ai.Base.{ℕ, ◌+◌, ◌*◌, Bool, false, Option, none, some, String, str_eq, if◌then◌else◌}
use agentdesk_ai.Models.Records.{Role, admin, operator, viewer, User}
use agentdesk_ai.Session.{Env, Claims}

unfoldable pub role_value : Role → String
role_value admin = "admin"
role_value operator = "operator"
role_value viewer = "viewer"

-- `payload.get("type") == expected_type`
abbrev pub has_type : Option String → String → Bool
has_type none expected = false
has_type (some t) expected = str_eq t expected

abbrev check_type : Option Claims → String → Option Claims
check_type none expected = none
check_type (some claims) expected = if has_type claims.type expected then some claims else none

module _ {F : Type 0} (env : Env F) where
  -- A lifetime of so many minutes; the clock counts seconds.
  abbrev pub access_claims : ℕ → User → Claims
  access_claims now user = record {
    sub = some (env.str_id user.id);
    type = some "access";
    iat = now;
    exp = now + env.access_token_minutes * 60;
    org = some (env.str_id user.organization_id);
    role = some (role_value user.role);
  }

  unfoldable pub create_access_token : ℕ → User → String
  create_access_token now user = env.jwt_encode (access_claims now user)

  abbrev pub refresh_claims : ℕ → User → Claims
  refresh_claims now user = record {
    sub = some (env.str_id user.id);
    type = some "refresh";
    iat = now;
    exp = now + env.refresh_token_days * 86400;
    org = none;
    role = none;
  }

  unfoldable pub create_refresh_token : ℕ → User → String
  create_refresh_token now user = env.jwt_encode (refresh_claims now user)

  -- `none` is a `JWTError`: of the library, or for a token of the other type.
  unfoldable pub decode_token : ℕ → String → String → Option Claims
  decode_token now token expected_type = check_type (env.jwt_decode now token) expected_type
