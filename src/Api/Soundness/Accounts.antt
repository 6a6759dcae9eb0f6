-- ===== src/Api/Soundness/Accounts.antt =====
-- The routes of webhooks.py, users.py, auth.py and documents.py that write, and the tickets.
use agentdesk_ai.Base.{Bool, Option, String}
use agentdesk_ai.Models.Records.{Role, User, DocumentSource}
use agentdesk_ai.Session.{
  Env, Error, auth_error, not_found, invalid_transition, empty_response, conflict, value_error,
  external, http, Result, ok, err,
}
use agentdesk_ai.Session.Quiet.{IsQuiet, Quiet-trans, IsQuiet-raise_if, IsQuiet-catch, quiet_rules}
use agentdesk_ai.Audit.Effects.{IsQuiet-record_event}
use agentdesk_ai.Webhooks.Config.Effects.{IsQuiet-upsert_config}
use agentdesk_ai.Auth.Effects.{IsQuiet-register, IsQuiet-create_user, IsQuiet-authenticate}
use agentdesk_ai.Auth.Service.{TokenPair, authenticate}
use agentdesk_ai.Documents.Service.Effects
use agentdesk_ai.Api.Routes
use agentdesk_ai.Api.Routes.Documents
use agentdesk_ai.Api.Routes.{refuse_login, accept_login, after_login, try_login}
use agentdesk_ai.Api.Soundness.Common.{IsQuiet-current_user}

ruleset account_rules = (quiet_rules, IsQuiet-raise_if, IsQuiet-catch, IsQuiet-current_user)

module _ {F : Type 0} (env : Env F) where
  pub IsQuiet-put_webhook :
      (creds : Option String) (url secret : String) (is_active : Bool)
      → IsQuiet (Routes.put_webhook env creds url secret is_active)
  unfolding Routes.put_webhook
  IsQuiet-put_webhook creds url secret is_active =
      search (account_rules, IsQuiet-upsert_config) depth 10

  pub IsQuiet-post_user :
      (creds : Option String) (email password : String) (role : Role)
      → IsQuiet (Routes.post_user env creds email password role)
  unfolding Routes.post_user
  IsQuiet-post_user creds email password role = search (account_rules, IsQuiet-create_user) depth 10

  pub IsQuiet-post_register :
      (name email password : String) → IsQuiet (Routes.post_register env name email password)
  unfolding Routes.post_register
  IsQuiet-post_register name email password = search (account_rules, IsQuiet-register) depth 10

  IsQuiet-refuse_login : (email : String) (e : Error) → IsQuiet (refuse_login env email e)
  unfolding refuse_login
  IsQuiet-refuse_login email (auth_error m) = search (quiet_rules, IsQuiet-record_event)
  IsQuiet-refuse_login email not_found = search quiet_rules
  IsQuiet-refuse_login email (invalid_transition a b) = search quiet_rules
  IsQuiet-refuse_login email (empty_response m) = search quiet_rules
  IsQuiet-refuse_login email (conflict m) = search quiet_rules
  IsQuiet-refuse_login email (value_error m) = search quiet_rules
  IsQuiet-refuse_login email (external m) = search quiet_rules
  IsQuiet-refuse_login email (http c m) = search quiet_rules

  IsQuiet-accept_login : (pair : TokenPair × User) → IsQuiet (accept_login env pair)
  unfolding accept_login
  IsQuiet-accept_login (tokens, user) = search (quiet_rules, IsQuiet-record_event)

  IsQuiet-after_login :
      (email : String) (r : Result (TokenPair × User)) → IsQuiet (after_login env email r)
  unfolding after_login
  IsQuiet-after_login email (ok pair) = IsQuiet-accept_login pair
  IsQuiet-after_login email (err e) = IsQuiet-refuse_login email e

  IsQuiet-try_login : (email password : String) → IsQuiet (try_login env email password)
  unfolding try_login
  IsQuiet-try_login email password = record {
    at = λ s.
        let (r, t) = authenticate env email password s in
        Quiet-trans ((IsQuiet-authenticate env email password).at s)
          ((IsQuiet-after_login email r).at t);
    appends = record {
      at = λ log s h.
          let (r, t) = authenticate env email password s in
          (IsQuiet-after_login email r).appends.at log t
            ((IsQuiet-authenticate env email password).appends.at log s h);
    };
  }

  pub IsQuiet-login : (email password : String) → IsQuiet (Routes.login env email password)
  unfolding Routes.login
  IsQuiet-login email password = search (account_rules, IsQuiet-try_login) depth 8

  pub IsQuiet-create_document :
      (creds : Option String) (title content : String) (source_type : DocumentSource)
      → IsQuiet (Documents.create_document env creds title content source_type)
  unfolding Documents.create_document
  IsQuiet-create_document creds title content source_type =
      search (account_rules, Effects.IsQuiet-create_document) depth 12
