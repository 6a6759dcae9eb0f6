-- ===== src/Api/Privacy/Queries.antt =====
-- What the services read for an organization, of its own rows alone.
use agentdesk_ai.Base.{
  ℕ, ◌≡◌, refl, ap, Option, List, All-weaken, ◌==◌, ==_iff, arith, select-select, select-select_All,
  All-select_of, sym, first-select, map-All, length, String, [], ◌∷◌,
}
use agentdesk_ai.Base.Order.{All-order_by_desc}
use agentdesk_ai.Models.Records.{Document}
use agentdesk_ai.Session.{Session, Env, ok, Answer, answer, failure, Exec, query, ◌>>=◌}
use agentdesk_ai.Session.Rows.{ticket_row, user_row}
use agentdesk_ai.Webhooks.Config.{get_config}
use agentdesk_ai.Auth.Service.{list_users}
use agentdesk_ai.Documents.Service
use agentdesk_ai.Retrieval.{RetrievedChunk, from_provider, first_vector, hits_of, search_chunks}
use agentdesk_ai.Metrics.{metrics_of, completed_runs, failed_jobs_of, compute}
use agentdesk_ai.Metrics.Tenants.{metrics_of-own}
use agentdesk_ai.Session.Own.{alone, IsFiled}

module _ {F : Type 0} (organization_id : ℕ) (s : Session F) where
  pub list_users-alone :
      (list_users organization_id s).0 ≡ (list_users organization_id (alone organization_id s)).0
  unfolding list_users
  list_users-alone =
      rw
        (select-select (λ t. t.organization_id == organization_id)
          (λ t. t.organization_id == organization_id) s.working.users (λ t h. h))
        refl

  pub get_config-alone :
      (get_config organization_id s).0 ≡ (get_config organization_id (alone organization_id s)).0
  unfolding get_config
  get_config-alone =
      rw (first-select (λ t. t.organization_id == organization_id) s.working.webhooks) refl

  pub list_documents-alone :
      IsFiled organization_id s.working
      → (Service.list_documents organization_id s).0
        ≡ (Service.list_documents organization_id (alone organization_id s)).0
  unfolding Service.list_documents
  list_documents-alone filed =
      let tenant = λ (d : Document). d.organization_id == organization_id in
      let chunks = s.working.document_chunks in
      rw (select-select tenant tenant s.working.documents (λ d h. h)) (
        ap ok (
          map-All _ _ _ (
            All-order_by_desc (λ d. d.created_at) _ _
              (All-select_of _ _ s.working.documents (
                All-weaken _ _ s.working.documents
                  (λ d h p.
                    ap (λ cs. (d, length cs))
                      (sym (
                        select-select_All (λ c. c.organization_id == organization_id)
                          (λ c. c.document_id == d.id) chunks
                          (All-weaken _ _ chunks (λ c k q. ground (arith, k))
                            (h ((==_iff _ _).0 p))))))
                  filed.chunks)))))

  pub hits_of-alone :
      (env : Env F) (threshold : F) (top_k : ℕ) (query_vec : List F)
      → hits_of env threshold top_k organization_id (alone organization_id s).working query_vec
        ≡ hits_of env threshold top_k organization_id s.working query_vec
  unfolding hits_of
  hits_of-alone env threshold top_k query_vec =
      rw
        (select-select (λ c. c.organization_id == organization_id)
          (λ c. c.organization_id == organization_id) s.working.document_chunks (λ c h. h))
        refl

  found-alone :
      (env : Env F) (threshold : F) (top_k : ℕ) (a : Answer (List (List F)))
      → let found : List F → Exec F (List (RetrievedChunk F)) =
          λ v. query (λ db. hits_of env threshold top_k organization_id db v) in
        ((from_provider env a >>= λ vs. first_vector env vs >>= found) s).0
        ≡ ((from_provider env a >>= λ vs. first_vector env vs >>= found)
            (alone organization_id s)).0
  unfolding first_vector
  found-alone env threshold top_k (answer []) = refl
  found-alone env threshold top_k (answer (v ∷ vs)) = rw (hits_of-alone env threshold top_k v) refl
  found-alone env threshold top_k (failure text) = refl

  pub search_chunks-alone :
      (env : Env F) (text : String) (threshold : Option F) (top_k : Option ℕ)
      → (search_chunks env organization_id text threshold top_k s).0
        ≡ (search_chunks env organization_id text threshold top_k (alone organization_id s)).0
  unfolding search_chunks
  search_chunks-alone env text threshold top_k =
      found-alone env _ _ (env.providers.embed (text ∷ []))

  pub compute-alone :
      (env : Env F)
      → (compute env organization_id s).0
        ≡ (compute env organization_id (alone organization_id s)).0
  unfolding compute metrics_of completed_runs failed_jobs_of
  compute-alone env = ap ok (sym (metrics_of-own organization_id s.working env))
