-- ===== src/Auth/Access.antt =====
-- core/deps.py and rbac.py: the user of a request, and the roles that a route allows.
pub mod Laws
use agentdesk_ai.Base.{
  ℕ, Bool, true, false, not, ◌&&◌, ◌||◌, Option, none, some, List, [], ◌∷◌, String, str_eq,
  if◌then◌else◌,
}
use agentdesk_ai.Models.Records.{Role, admin, operator, viewer, User}
use agentdesk_ai.Session.{
  Env, Claims, http, Exec, pure, raise, raise_if, query, get_now, ◌>>=◌, ◌>>◌,
}
use agentdesk_ai.Session.Rows.{get, user_row}
use agentdesk_ai.Auth.Tokens.{decode_token}

abbrev pub role_eq : Role → Role → Bool
role_eq admin admin = true
role_eq operator operator = true
role_eq viewer viewer = true
role_eq _ _ = false

abbrev pub has_role : List Role → Role → Bool
has_role [] r = false
has_role (a ∷ more) r = role_eq a r || has_role more r

abbrev pub is_empty : List Role → Bool
is_empty [] = true
is_empty (a ∷ more) = false

module _ {F : Type 0} where
  abbrev pub unauthorized : {A : Type 0} → Exec F A
  unauthorized = raise (http 401 "Could not validate credentials")

  -- `user is None or not user.is_active`
  abbrev pub active_or_401 : Option User → Exec F User
  active_or_401 none = unauthorized
  active_or_401 (some user) = if user.is_active then pure user else unauthorized

  -- `require_role(*allowed)`
  unfoldable pub require_role : List Role → User → Exec F User
  require_role allowed user = do
    raise_if (not (is_empty allowed) && not (has_role allowed user.role))
        (http 403 "Insufficient role for this action")
    pure user

module _ {F : Type 0} (env : Env F) where
  -- `uuid.UUID(payload["sub"])`; a missing key and a malformed one end alike.
  unfoldable pub subject_of : Option Claims → Option ℕ
  subject_of none = none
  subject_of (some claims) = elim claims.sub [ none ↦ none | some text ↦ env.parse_id text ]

  unfoldable pub user_of : Option ℕ → Exec F User
  user_of none = unauthorized
  user_of (some user_id) = do user ← query (λ db. get user_id db.users); active_or_401 user

  unfoldable pub get_current_user : Option String → Exec F User
  unfolding subject_of user_of decode_token
  get_current_user none = unauthorized
  get_current_user (some token) =
      if str_eq token ""
      then unauthorized
      else (do now ← get_now; user_of (subject_of (decode_token env now token "access")))
