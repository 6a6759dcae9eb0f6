-- ===== src/Api/Privacy.antt =====
-- What the answers to a user of one organization may depend on: the rows of that organization.
pub mod Queries
use agentdesk_ai.Base.{
  map, leb, inl, inr, refl, Bool-cases, str_eq, ◌==◌, ℕ, ◌≡◌, refl, sym, ap, ◌∙◌, Bool, true, false,
  Bool-cases, inl, inr, Option, none, some, List, [], ◌∷◌, String, ◌==◌, ==_iff, not, ◌&&◌, select,
  select-select, if◌then◌else◌, str_eq, arith,
}
use agentdesk_ai.Models.Ticket.{TicketStatus}
use agentdesk_ai.Models.Records.{Role, User}
use agentdesk_ai.Session.{
  http, or_handle, raise, pure, ◌>>◌, Session, Env, Exec, Result, ok, err, resume, ◌>>=◌,
}
use agentdesk_ai.Session.Own.{alone, IsFiled}
use agentdesk_ai.Session.Rows.{get, user_row}
use agentdesk_ai.Session.Selected.{get-select_own}
use agentdesk_ai.Session.ReadOnly.{IsReadOnly}
use agentdesk_ai.Tickets.Service.Alone.{list_tickets-alone, get_ticket-alone, list_events-alone}
use agentdesk_ai.Auth.Access.{
  subject_of, user_of, get_current_user, require_role, is_empty, has_role,
}
use agentdesk_ai.Auth.Tokens.{decode_token}
use agentdesk_ai.Auth.Access.Laws.{get_current_user_lem, get_current_user-none}
use agentdesk_ai.Auth.Effects.{IsReadOnly-get_current_user}
use agentdesk_ai.Api.Routes.{
  translate, http_of, validate, current_user, get_tickets, get_one_ticket, get_ticket_events,
  get_webhook, get_deliveries, get_users,
}
use Prim.Native.String.{count}
use agentdesk_ai.Tickets.Service.{get_ticket, list_events}
use agentdesk_ai.Documents.Service
use agentdesk_ai.Retrieval.{search_chunks}
use agentdesk_ai.Api.Routes.Documents.{
  out_of, hit_of, threshold_valid, list_documents, search_documents,
}
use agentdesk_ai.Api.Routes.Reads.{get_metrics}
use agentdesk_ai.Api.Privacy.Queries.{
  list_users-alone, get_config-alone, list_documents-alone, search_chunks-alone, compute-alone,
}

module _ {F : Type 0} (env : Env F) where
  -- The answers to a token's requests that read are the same in two sessions.
  pub record SameAnswers (creds : Option String) (s t : Session F) : Type 0 where
    pub tickets :
        (status : Option TicketStatus)
        → (get_tickets env creds status s).0 ≡ (get_tickets env creds status t).0
    pub ticket : (key : ℕ) → (get_one_ticket env creds key s).0 ≡ (get_one_ticket env creds key t).0
    pub events :
        (key : ℕ) → (get_ticket_events env creds key s).0 ≡ (get_ticket_events env creds key t).0
    pub webhook : (get_webhook env creds s).0 ≡ (get_webhook env creds t).0
    pub deliveries : (get_deliveries env creds s).0 ≡ (get_deliveries env creds t).0
    pub users : (get_users env creds s).0 ≡ (get_users env creds t).0
    pub documents : (list_documents env creds s).0 ≡ (list_documents env creds t).0
    pub metrics : (get_metrics env creds s).0 ≡ (get_metrics env creds t).0
    pub hits :
        (text : String) (threshold : Option F) (top_k : ℕ)
        → (search_documents env creds text threshold top_k s).0
          ≡ (search_documents env creds text threshold top_k t).0

  -- A token gets the same user in the session with the user's organization alone.
  get_current_user-alone :
      (creds : Option String) (s : Session F) (user : User)
      → (get_current_user env creds s).0 ≡ ok user
      → (get_current_user env creds (alone user.organization_id s)).0 ≡ ok user
  unfolding get_current_user user_of
  get_current_user-alone none s user e = absurd cc
  get_current_user-alone (some token) s user e =
      let (key, named, found, active) = get_current_user_lem env token s user e in
      let there =
        get-select_own (λ u. u.organization_id == user.organization_id) key s.working.users found
          (ground arith) in
      elim (Bool-cases (str_eq token "")) [
        | inl p ↦
            let other : ◌≡◌ {A = Result User} (err (http 401 "Could not validate credentials"))
                (ok user) =
              rw p at e in
            absurd cc
        | inr p ↦ rw (p, named, there, active) refl
      ]

  -- A route answers in two sessions alike, if it does so for the user of the token.
  guarded :
      {A : Type 0} (creds : Option String) (roles : List Role) (f : User → Exec F A)
      (s t : Session F) (user : User)
      → get_current_user env creds s ≡ (ok user, s)
      → get_current_user env creds t ≡ (ok user, t)
      → (f user s).0 ≡ (f user t).0
      → ((current_user env creds roles >>= f) s).0 ≡ ((current_user env creds roles >>= f) t).0
  unfolding current_user require_role
  guarded creds roles f s t user hs ht same =
      elim (Bool-cases (not (is_empty roles) && not (has_role roles user.role))) [
        | inl e ↦ rw (hs, ht, e) refl
        | inr e ↦ rw (hs, ht, e) same
      ]

  -- The translation of an error, and what a route makes of a result, do not look at the session.
  translate-told :
      {A : Type 0} (m : Exec F A) (s t : Session F)
      → (m s).0 ≡ (m t).0
      → (translate m s).0 ≡ (translate m t).0
  translate-told {A} m s t e =
      told (m s).0 ∙ ap (λ r. (or_handle r (λ e. raise (http_of e)) (m t).1).0) e
    where
      told :
          (r : Result A)
          → (or_handle r (λ e. raise (http_of e)) (m s).1).0
            ≡ (or_handle r (λ e. raise (http_of e)) (m t).1).0
      told (ok a) = refl
      told (err e) = refl

  made :
      {A B : Type 0} (m : Exec F A) (g : A → B) (s t : Session F)
      → (m s).0 ≡ (m t).0
      → ((m >>= λ a. pure (g a)) s).0 ≡ ((m >>= λ a. pure (g a)) t).0
  made {A} {B} m g s t e = told (m s).0 ∙ ap (λ r. (resume r (λ a. pure (g a)) (m t).1).0) e
    where
      told :
          (r : Result A)
          → (resume r (λ a. pure (g a)) (m s).1).0 ≡ (resume r (λ a. pure (g a)) (m t).1).0
      told (ok a) = refl
      told (err e) = refl

  checked :
      {A : Type 0} (valid : Bool) (m : Exec F A) (s t : Session F)
      → (m s).0 ≡ (m t).0
      → ((validate valid >> m) s).0 ≡ ((validate valid >> m) t).0
  checked true m s t e = e
  checked false m s t e = refl

  as_user :
      (creds : Option String) (s : Session F) (user : User)
      → (get_current_user env creds s).0 ≡ ok user
      → get_current_user env creds s ≡ (ok user, s)
  as_user creds s user e = pair ((IsReadOnly-get_current_user env creds).at s)
    where
      pair : (get_current_user env creds s).1 ≡ s → get_current_user env creds s ≡ (ok user, s)
      pair h i = (e i, h i)

  -- Confidentiality: what a user is answered, by every list, ticket, search and figure that the API
  -- shows, is what the user would be answered if the database held the rows of the user's
  -- organization alone: no row of another organization has any influence on it, errors included. No
  -- two tickets have one key, and the events of the organization's tickets and the chunks of its
  -- documents are its own; which vectors the index visits for a query is the same in both.
  pub own_rows-SameAnswers :
      (creds : Option String) (s : Session F) (user : User)
      → (get_current_user env creds s).0 ≡ ok user
      → IsFiled user.organization_id s.working
      → SameAnswers creds s (alone user.organization_id s)
  unfolding get_tickets get_one_ticket get_ticket_events get_webhook get_deliveries get_users
      list_documents search_documents get_metrics
  own_rows-SameAnswers creds s user e filed =
      let org = user.organization_id in
      let t : Session F = alone org s in
      let hs = as_user creds s user e in
      let ht = as_user creds t user (get_current_user-alone creds s user e) in
      record {
        tickets = λ status. guarded creds _ _ s t user hs ht (list_tickets-alone org s status);
        ticket = λ key.
            guarded creds _ _ s t user hs ht
              (translate-told (get_ticket org key) s t (get_ticket-alone org s key filed));
        events = λ key.
            guarded creds _ _ s t user hs ht
              (translate-told (list_events org key) s t (list_events-alone org s key filed));
        webhook = guarded creds _ _ s t user hs ht (get_config-alone org s);
        deliveries = guarded creds _ _ s t user hs ht (
            rw
              (select-select (λ d. d.organization_id == org) (λ d. d.organization_id == org)
                s.working.webhook_deliveries (λ d h. h))
              refl);
        users = guarded creds _ _ s t user hs ht (list_users-alone org s);
        documents =
            guarded creds _ _ s t user hs ht (
              made (Service.list_documents org) (map out_of) s t
                (list_documents-alone org s filed));
        metrics = guarded creds _ _ s t user hs ht (compute-alone org s env);
        hits = λ text threshold top_k. guarded creds _ _ s t user hs ht (
            checked
              (leb 1 (count text)
                && (threshold_valid env threshold && (leb 1 top_k && leb top_k 50)))
              (search_chunks env org text threshold (some top_k) >>= λ hits.
                pure (map (hit_of env) hits))
              s t
              (made (search_chunks env org text threshold (some top_k)) (map (hit_of env)) s t
                (search_chunks-alone org s env text threshold (some top_k))));
      }
