-- ===== src/Documents/Service/Effects.antt =====
-- services/document_service.py: what it does to the tables.
use agentdesk_ai.Base.{ℕ, suc, List, [], ◌∷◌, String, refl}
use agentdesk_ai.Models.Records.{Document, DocumentSource, DocumentChunk}
use agentdesk_ai.Session.{Db, Env, write}
use agentdesk_ai.Session.Growth.{Extends-refl}
use agentdesk_ai.Session.Quiet.{IsQuiet, IsQuiet-bind, IsQuiet-write, quiet_rules}
use agentdesk_ai.Retrieval.Effects.{IsQuiet-from_provider}
use agentdesk_ai.Documents.Service.{
  add_chunk, add_chunks, embed_chunks, store_chunks, create_document,
}

module _ {F : Type 0} where
  IsQuiet-write_chunks :
      (f : Db F → List (DocumentChunk F))
      → IsQuiet (write λ db. record db { document_chunks = f db })
  IsQuiet-write_chunks f =
      IsQuiet-write _ (λ db. refl) (λ db. refl) (λ db. Extends-refl db.audit_logs)

  IsQuiet-write_documents :
      (f : Db F → List Document) → IsQuiet (write λ db. record db { documents = f db })
  IsQuiet-write_documents f =
      IsQuiet-write _ (λ db. refl) (λ db. refl) (λ db. Extends-refl db.audit_logs)

  IsQuiet-add_chunks :
      (document : Document) (idx : ℕ) (chunks : List String) (vectors : List (List F))
      → IsQuiet (add_chunks document idx chunks vectors)
  unfolding add_chunks
  IsQuiet-add_chunks document idx [] [] = search quiet_rules
  IsQuiet-add_chunks document idx [] (v ∷ vs) = search quiet_rules
  IsQuiet-add_chunks document idx (c ∷ cs) [] = search quiet_rules
  IsQuiet-add_chunks document idx (c ∷ cs) (v ∷ vs) =
      IsQuiet-bind (add_chunk document idx c v) (λ _. add_chunks document (suc idx) cs vs)
        (search (quiet_rules, IsQuiet-write_chunks))
        (λ _. IsQuiet-add_chunks document (suc idx) cs vs)

module _ {F : Type 0} (env : Env F) where
  IsQuiet-embed_chunks : (chunks : List String) → IsQuiet (embed_chunks env chunks)
  unfolding embed_chunks
  IsQuiet-embed_chunks [] = search quiet_rules
  IsQuiet-embed_chunks (c ∷ cs) = search (IsQuiet-from_provider)

  IsQuiet-store_chunks :
      (document : Document) (chunks : List String) (embeddings : List (List F))
      → IsQuiet (store_chunks document chunks embeddings)
  unfolding store_chunks
  IsQuiet-store_chunks document chunks embeddings =
      search (quiet_rules, IsQuiet-add_chunks) depth 10

  pub IsQuiet-create_document :
      (organization_id actor : ℕ) (title content : String) (source_type : DocumentSource)
      → IsQuiet (create_document env organization_id actor title content source_type)
  unfolding create_document
  IsQuiet-create_document organization_id actor title content source_type =
      search (quiet_rules, IsQuiet-write_documents, IsQuiet-embed_chunks, IsQuiet-store_chunks)
        depth 12
