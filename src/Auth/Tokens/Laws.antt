-- ===== src/Auth/Tokens/Laws.antt =====
-- core/security.py: tokens issued and read back.
use agentdesk_ai.Base.{ℕ, ◌≡◌, refl, none, some}
use agentdesk_ai.Models.Records.{User}
use agentdesk_ai.Session.{Env}
use agentdesk_ai.Auth.Tokens.{
  access_claims, refresh_claims, create_access_token, create_refresh_token, decode_token,
}
use agentdesk_ai.Auth.Access.{subject_of}

module _ {F : Type 0} (env : Env F) where
  -- While the library reads an access token back as the claims that it was issued with, and the text
  -- of its user's key as that key, the token names its user where an access token is asked for, and
  -- is refused where a refresh token is.
  access_token_lem :
      (issued now : ℕ) (user : User)
      → env.jwt_decode now (create_access_token env issued user)
        ≡ some (access_claims env issued user)
      → env.parse_id (env.str_id user.id) ≡ some user.id
      → let token = create_access_token env issued user in
        (subject_of env (decode_token env now token "access") ≡ some user.id)
        × (decode_token env now token "refresh" ≡ none)
  unfolding decode_token subject_of
  access_token_lem issued now user carried parsed = rw carried (parsed, refl)

  -- While the library reads a refresh token back as the claims that it was issued with, and the text
  -- of its user's key as that key, the token names its user where a refresh token is asked for, and
  -- is refused where an access token is.
  refresh_token_lem :
      (issued now : ℕ) (user : User)
      → env.jwt_decode now (create_refresh_token env issued user)
        ≡ some (refresh_claims env issued user)
      → env.parse_id (env.str_id user.id) ≡ some user.id
      → let token = create_refresh_token env issued user in
        (subject_of env (decode_token env now token "refresh") ≡ some user.id)
        × (decode_token env now token "access" ≡ none)
  unfolding decode_token subject_of
  refresh_token_lem issued now user carried parsed = rw carried (parsed, refl)
