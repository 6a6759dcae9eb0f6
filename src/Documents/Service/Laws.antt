-- ===== src/Documents/Service/Laws.antt =====
-- What `create_document` stores, and what it leaves behind when it fails.
use mathlib.Core.List.{append_assoc, append-nil}
use agentdesk_ai.Base.{
  some, ℕ, suc, ◌+◌, ◌<◌, ◌≡◌, ◌≢◌, ◌⊎◌, inl, inr, refl, sym, ◌∙◌, ap, List, [], ◌∷◌, ◌++◌, String,
  length, All, arith,
}
use agentdesk_ai.Models.Records.{Document, DocumentSource, DocumentChunk}
use agentdesk_ai.Session.{Session, Env, Error, Result, ok, err, Answer, answer, failure}
use agentdesk_ai.Session.Rows.{get-append_new, document_row}
use agentdesk_ai.Words.{Word}
use agentdesk_ai.Providers.{mock, vendor_of, embed_with, configured}
use agentdesk_ai.Providers.Vendors.{Sdk}
use agentdesk_ai.Providers.Mock
use agentdesk_ai.Providers.Mock.Laws.{embed_lem}
use agentdesk_ai.Retrieval.{from_provider}
use agentdesk_ai.Documents.{chunk_text}
use agentdesk_ai.Documents.Service.{
  chunk_size_words, chunk_overlap_words, new_chunk, add_chunks, embed_chunks, store_chunks,
  create_document,
}

module _ {F : Type 0} where
  -- The rows of the chunks: from the key `id` and the index `idx` on, one for each text.
  unfoldable pub chunk_rows :
      Document → ℕ → ℕ → List String → List (List F) → List (DocumentChunk F)
  chunk_rows document id idx [] vectors = []
  chunk_rows document id idx (chunk ∷ chunks) [] = []
  chunk_rows document id idx (chunk ∷ chunks) (vector ∷ vectors) =
      record {
        id = id;
        organization_id = document.organization_id;
        document_id = document.id;
        chunk_index = idx;
        content = chunk;
        embedding = vector;
      }
      ∷ chunk_rows document (suc id) (suc idx) chunks vectors

  -- The session with rows added behind the chunks.
  abbrev pub with_chunks : ℕ → List (DocumentChunk F) → Session F → Session F
  with_chunks n rows s = record s {
    next_id = s.next_id + n;
    working = record s.working { document_chunks = s.working.document_chunks ++ rows };
  }

  abbrev with_chunk : DocumentChunk F → Session F → Session F
  with_chunk row s = record s {
    next_id = suc s.next_id;
    working = record s.working { document_chunks = s.working.document_chunks ++ (row ∷ []) };
  }

  with_no_chunks : (s : Session F) → s ≡ with_chunks 0 [] s
  with_no_chunks s = ground (arith, append-nil s.working.document_chunks)

  with_chunks-with_chunk :
      (n : ℕ) (row : DocumentChunk F) (rows : List (DocumentChunk F)) (s : Session F)
      → with_chunks n rows (with_chunk row s) ≡ with_chunks (suc n) (row ∷ rows) s
  with_chunks-with_chunk n row rows s =
      ground (arith, append_assoc s.working.document_chunks (row ∷ []) rows)

  -- What the loop over the chunks gives.
  data Added (document : Document) (idx : ℕ) (chunks : List String) (vectors : List (List F))
      (s : Session F) : Type 0 where
    all_added :
        length chunks ≡ length vectors
        → add_chunks document idx chunks vectors s ≡ (
          ok tt,
          with_chunks (length chunks) (chunk_rows document s.next_id idx chunks vectors) s,
        )
        → Added document idx chunks vectors s
    mismatch :
        (e : Error) (t : Session F)
        → length chunks ≢ length vectors
        → add_chunks document idx chunks vectors s ≡ (err e, t)
        → t.committed ≡ s.committed
        → Added document idx chunks vectors s

  added :
      (document : Document) (idx : ℕ) (chunks : List String) (vectors : List (List F))
      (s : Session F)
      → Added document idx chunks vectors s
  unfolding add_chunks chunk_rows
  added document idx [] [] s = all_added refl (ap (λ t. (ok tt, t)) (with_no_chunks s))
  added document idx [] (v ∷ vs) s = mismatch _ s (λ p. ground arith) refl refl
  added document idx (c ∷ cs) [] s = mismatch _ s (λ p. ground arith) refl refl
  added document idx (c ∷ cs) (v ∷ vs) s =
      let row = new_chunk s.next_id document idx c v in
      elim (added document (suc idx) cs vs (with_chunk row s)) [
        | all_added l e ↦
            all_added (ap suc l)
              (e ∙ ap (λ t. (ok tt, t)) (with_chunks-with_chunk (length cs) row _ s))
        | mismatch e t l p c ↦ mismatch e t (λ q. l (ground arith)) p c
      ]

returned :
    {F A B : Type 0} (m : Result A × Session F) {a : A} {t : Session F} {e : Error}
    → m ≡ (ok a, t)
    → m.0 ≡ err e
    → B
returned m p q = absurd (cc (ap (λ x. x.0) p, q))

answer_cases :
    {A : Type 0} (a : Answer A) → ((x : A) × (a ≡ answer x)) ⊎ ((e : String) × (a ≡ failure e))
answer_cases (answer x) = inl (x, refl)
answer_cases (failure e) = inr (e, refl)

-- The document's chunks as texts.
abbrev pub texts_of : String → List String
texts_of content = chunk_text content chunk_size_words chunk_overlap_words

module _ {F : Type 0} (env : Env F) where
  -- The provider's answer for the chunks; it is not asked if there are none.
  abbrev pub vectors_for : List String → Answer (List (List F))
  vectors_for [] = answer []
  vectors_for (chunk ∷ chunks) = env.providers.embed (chunk ∷ chunks)

  embed_chunks_lem :
      (chunks : List String) → embed_chunks env chunks ≡ from_provider env (vectors_for chunks)
  unfolding embed_chunks
  embed_chunks_lem [] = refl
  embed_chunks_lem (chunk ∷ chunks) = refl

  mock_vectors :
      (word_hash : Word → ℕ) (dim : ℕ)
      → env.providers.embed ≡ Mock.embed env.floats word_hash dim
      → (chunks : List String) → {vectors : List (List F)}
      → Mock.embed env.floats word_hash dim chunks ≡ answer vectors
      → vectors_for chunks ≡ answer vectors
  unfolding Mock.embed
  mock_vectors word_hash dim chosen [] e = e
  mock_vectors word_hash dim chosen (chunk ∷ chunks) e = rw chosen e

  module _ (organization_id actor : ℕ) (title content : String) (source_type : DocumentSource)
      (s : Session F) where
    abbrev pub made : Document
    made = record {
      id = s.next_id;
      organization_id = organization_id;
      title = title;
      source_type = source_type;
      content = content;
      created_by = some actor;
      created_at = s.now;
    }

    abbrev inserted : Session F
    inserted = record s {
      next_id = suc s.next_id;
      working = record s.working { documents = s.working.documents ++ (made ∷ []) };
    }

    -- The session after the document and its chunks are committed.
    abbrev pub after_store : List (List F) → Session F
    after_store vectors =
        let t =
          with_chunks (length (texts_of content))
            (chunk_rows made (suc s.next_id) 0 (texts_of content) vectors) inserted in
        record t { committed = t.working }

    -- When the provider gives one vector for each chunk of the content, and the keys of the stored
    -- documents are below the next one, the document is created and returned with the number of its
    -- chunks; it is committed with one row for each chunk, numbered from 0 in the order of the text,
    -- each with the vector at its place, and nothing else is written.
    pub create_document-stores :
        (vectors : List (List F))
        → vectors_for (texts_of content) ≡ answer vectors
        → length (texts_of content) ≡ length vectors
        → All (λ d. d.id < s.next_id) s.working.documents
        → create_document env organization_id actor title content source_type s
          ≡ (ok (made, length (texts_of content)), after_store vectors)
    unfolding create_document store_chunks
    create_document-stores vectors given same fresh =
        elim (added made 0 (texts_of content) vectors inserted) [
          | all_added l e ↦
              rw
                (
                  embed_chunks_lem (texts_of content),
                  given,
                  e,
                  get-append_new s.working.documents made fresh,
                )
                refl
          | mismatch e t l p c ↦ absurd (l same)
        ]

    -- If creating a document raises, whatever the reason, and the keys of the stored documents are
    -- below the next one, nothing is committed: no document and no chunk is left behind.
    pub create_document-fails :
        (exc : Error)
        → All (λ d. d.id < s.next_id) s.working.documents
        → (create_document env organization_id actor title content source_type s).0 ≡ err exc
        → (create_document env organization_id actor title content source_type s).1.committed
          ≡ s.committed
    unfolding create_document store_chunks
    create_document-fails exc fresh failed = elim (answer_cases (vectors_for (texts_of content))) [
      | inl (vectors, given) ↦ elim (added made 0 (texts_of content) vectors inserted) [
        | all_added l e ↦ returned _ (create_document-stores vectors given l fresh) failed
        | mismatch e t l p c ↦ rw (embed_chunks_lem (texts_of content), given, p) c
      ]
      | inr (e, given) ↦ rw (embed_chunks_lem (texts_of content), given) refl
    ]

    -- With the mock, as the settings choose it, and a dimension other than 0, a document of any
    -- content is created: the call returns it with the number of its chunks and commits all of them,
    -- each with a vector of that dimension, provided that the keys of the stored documents are below
    -- the next one.
    pub create_document-mock :
        (sdk : Sdk F) (word_hash : Word → ℕ)
        → env.providers ≡ configured env.settings env.floats sdk word_hash env.py_lower
        → vendor_of (env.py_lower env.embedding_provider) ≡ mock
        → env.embedding_dim ≢ 0
        → All (λ d. d.id < s.next_id) s.working.documents
        → (vectors : List (List F)) × (length vectors ≡ length (texts_of content))
          × All (λ v. length v ≡ env.embedding_dim) vectors
          × (create_document env organization_id actor title content source_type s
              ≡ (ok (made, length (texts_of content)), after_store vectors))
    unfolding configured embed_with
    create_document-mock sdk word_hash as_configured chosen positive fresh =
        let asked : env.providers.embed ≡ Mock.embed env.floats word_hash env.embedding_dim =
          rw (as_configured, chosen) refl in
        let (vectors, e, l, a) =
          embed_lem env.floats word_hash env.embedding_dim (texts_of content) positive in
        let given = mock_vectors word_hash env.embedding_dim asked (texts_of content) e in
        (vectors, l, a, create_document-stores vectors given (sym l) fresh)
