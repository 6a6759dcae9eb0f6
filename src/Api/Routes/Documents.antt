-- ===== src/Api/Routes/Documents.antt =====
-- api/v1/documents.py with schemas/document.py.
use Prim.Native.String.{count}
use agentdesk_ai.Base.{
  ℕ, true, not, ◌&&◌, is_blank, Bool, Option, none, some, List, map, String, leb,
}
use agentdesk_ai.Models.Records.{Document, DocumentSource}
use agentdesk_ai.Session.{Env, Exec, pure, ◌>>=◌, ◌>>◌}
use agentdesk_ai.Retrieval.{RetrievedChunk, search_chunks}
use agentdesk_ai.Documents.Service
use agentdesk_ai.Api.Routes.{validate, length_within, current_user, staff, everyone}

pub record DocumentOut : Type 0 where
  pub id : ℕ
  pub organization_id : ℕ
  pub title : String
  pub source_type : DocumentSource
  pub created_at : ℕ
  pub chunk_count : Option ℕ

pub record SearchHit (F : Type 0) : Type 0 where
  pub chunk_id : ℕ
  pub document_id : ℕ
  pub content : String
  pub score : F

-- `DocumentOut.model_validate(document)` and the assignment of the count.
abbrev pub out_of : Document × ℕ → DocumentOut
out_of (document, count) = record {
  id = document.id;
  organization_id = document.organization_id;
  title = document.title;
  source_type = document.source_type;
  created_at = document.created_at;
  chunk_count = some count;
}

module _ {F : Type 0} (env : Env F) where
  unfoldable pub create_document :
      Option String → String → String → DocumentSource → Exec F DocumentOut
  unfolding current_user Service.create_document
  create_document creds title content source_type = do
    current ← current_user env creds (staff env)
    validate (length_within 1 255 title && (leb 1 (count content) && not (is_blank content)))
    pair ← Service.create_document env current.organization_id current.id title content source_type
    pure (out_of pair)

  unfoldable pub list_documents : Option String → Exec F (List DocumentOut)
  unfolding current_user Service.list_documents
  list_documents creds = do
    current ← current_user env creds (everyone env)
    results ← Service.list_documents current.organization_id
    pure (map out_of results)

  -- `Field(default=None, ge=0.0, le=1.0)`
  abbrev pub threshold_valid : Option F → Bool
  threshold_valid none = true
  threshold_valid (some t) =
      env.floats.le (env.floats.literal 0 0) t && env.floats.le t (env.floats.literal 1 0)

  abbrev pub hit_of : RetrievedChunk F → SearchHit F
  hit_of h = record {
    chunk_id = h.chunk.id;
    document_id = h.chunk.document_id;
    content = h.chunk.content;
    score = env.floats.round h.score 6;
  }

  unfoldable pub search_documents :
      Option String → String → Option F → ℕ → Exec F (List (SearchHit F))
  unfolding current_user search_chunks
  search_documents creds text threshold top_k = do
    current ← current_user env creds (everyone env)
    validate (leb 1 (count text) && (threshold_valid threshold && (leb 1 top_k && leb top_k 50)))
    hits ← search_chunks env current.organization_id text threshold (some top_k)
    pure (map hit_of hits)
