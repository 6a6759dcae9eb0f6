-- ===== src/Documents/Service.antt =====
-- services/document_service.py: `create_document` and `list_documents`.
pub mod Effects
pub mod Laws
use agentdesk_ai.Base.{
  ℕ, suc, List, [], ◌∷◌, ◌++◌, map, some, String, length, select, ◌==◌, if◌then◌else◌,
}
use agentdesk_ai.Base.Order.{order_by_desc}
use agentdesk_ai.Models.Records.{Document, DocumentSource, DocumentChunk}
use agentdesk_ai.Session.{
  Env, value_error, external, Exec, pure, raise, raise_if_none, query, fresh_id, get_now, write,
  commit, ◌>>=◌, ◌>>◌,
}
use agentdesk_ai.Session.Rows.{get, document_row}
use agentdesk_ai.Retrieval.{from_provider}
use agentdesk_ai.Documents.{chunk_text}

abbrev pub chunk_size_words : ℕ
chunk_size_words = 120

abbrev pub chunk_overlap_words : ℕ
chunk_overlap_words = 20

-- `Document(…)`
abbrev pub new_document : ℕ → ℕ → ℕ → ℕ → String → String → DocumentSource → Document
new_document id now organization_id actor_user_id title content source_type = record {
  id = id;
  organization_id = organization_id;
  title = title;
  source_type = source_type;
  content = content;
  created_by = some actor_user_id;
  created_at = now;
}

-- `DocumentChunk(…)`
abbrev pub new_chunk : {F : Type 0} → ℕ → Document → ℕ → String → List F → DocumentChunk F
new_chunk id document chunk_index content embedding = record {
  id = id;
  organization_id = document.organization_id;
  document_id = document.id;
  chunk_index = chunk_index;
  content = content;
  embedding = embedding;
}

module _ {F : Type 0} where
  abbrev pub add_chunk : Document → ℕ → String → List F → Exec F (Unit {0})
  add_chunk document idx chunk vector = do
    id ← fresh_id
    write (λ db. record db {
      document_chunks = db.document_chunks ++ (new_chunk id document idx chunk vector ∷ []);
    })

  -- The loop over `zip(chunks, embeddings, strict=True)`, from the index `idx` on.
  unfoldable pub add_chunks : Document → ℕ → List String → List (List F) → Exec F (Unit {0})
  add_chunks document idx [] [] = pure tt
  add_chunks document idx [] (vector ∷ vectors) =
      raise (value_error "zip() argument 2 is longer than argument 1")
  add_chunks document idx (chunk ∷ chunks) [] =
      raise (value_error "zip() argument 2 is shorter than argument 1")
  add_chunks document idx (chunk ∷ chunks) (vector ∷ vectors) =
      add_chunk document idx chunk vector >> add_chunks document (suc idx) chunks vectors

  -- `db.refresh(document)`
  abbrev refresh_document : ℕ → Exec F Document
  refresh_document key = do
    found ← query (λ db. get key db.documents)
    raise_if_none found (external "could not refresh")

  -- The outer join with the chunks, counted for each document.
  unfoldable pub list_documents : ℕ → Exec F (List (Document × ℕ))
  list_documents organization_id = query (λ db.
      map (λ d. (d, length (select (λ c. c.document_id == d.id) db.document_chunks)))
        (order_by_desc (λ d. d.created_at)
          (select (λ d. d.organization_id == organization_id) db.documents)))

  abbrev pub insert_document : ℕ → ℕ → String → String → DocumentSource → Exec F Document
  insert_document organization_id actor_user_id title content source_type = do
    id ← fresh_id
    now ← get_now
    let document = new_document id now organization_id actor_user_id title content source_type
    write (λ db. record db { documents = db.documents ++ (document ∷ []) })
    pure document

  -- `await embed(chunks) if chunks else []`
  unfoldable pub embed_chunks : Env F → List String → Exec F (List (List F))
  embed_chunks env [] = pure []
  embed_chunks env (chunk ∷ chunks) = from_provider env (env.providers.embed (chunk ∷ chunks))

  unfoldable pub store_chunks : Document → List String → List (List F) → Exec F (Document × ℕ)
  unfolding add_chunks
  store_chunks document chunks embeddings = do
    add_chunks document 0 chunks embeddings
    commit
    stored ← refresh_document document.id
    pure (stored, length chunks)

  unfoldable pub create_document :
      Env F → ℕ → ℕ → String → String → DocumentSource → Exec F (Document × ℕ)
  unfolding chunk_text embed_chunks store_chunks
  create_document env organization_id actor_user_id title content source_type = do
    document ← insert_document organization_id actor_user_id title content source_type
    let chunks = chunk_text content chunk_size_words chunk_overlap_words
    embeddings ← embed_chunks env chunks
    store_chunks document chunks embeddings
