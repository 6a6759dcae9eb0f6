-- ===== src/Tests/Knowledge.antt =====
-- The theorems about the documents, the search, the providers and the metrics, at concrete inputs.
use native.Mathlib.Nat.{div-le_of_le-mul}
use agentdesk_ai.Base.{
  ℕ, zero, suc, ◌*◌, ◌/◌, ◌+◌, ◌≡◌, ◌≢◌, ◌≤◌, refl, true, false, none, some, List, [], ◌∷◌, map,
  map_option, String, length, All, arith, if◌then◌else◌, leb,
}
use agentdesk_ai.Models.Ticket.{TicketStatus, status_value}
use agentdesk_ai.Models.Records.{manual}
use agentdesk_ai.Session.{Env, failure, ok, external}
use agentdesk_ai.Session.ReadOnly.{IsReadOnly}
use agentdesk_ai.Words.{Word}
use agentdesk_ai.Documents.Service.{create_document}
use agentdesk_ai.Documents.Service.Laws.{
  texts_of, made, after_store, create_document-stores, create_document-fails, create_document-mock,
}
use agentdesk_ai.Retrieval.{hits_of}
use agentdesk_ai.Retrieval.Ranking.{nearest_hits, hits_of-best_hits}
use agentdesk_ai.Providers.{mock, openai, complete_with, embed_with, configured}
use agentdesk_ai.Providers.Vendors.{Sdk}
use agentdesk_ai.Metrics.{metrics_of}
use agentdesk_ai.Metrics.Counts.{
  sum_counts, count_for, if_any, number_of, own_tickets, tickets_by_status-counts,
}
use agentdesk_ai.Metrics.Rates.{IsRate, DividesSoundly, metrics_of-rates}
use agentdesk_ai.Api.Routes.Reads.{metrics, perform_read}
use agentdesk_ai.Api.Soundness.Reads.{perform_read-IsReadOnly}
use agentdesk_ai.Api.Routes.{get_webhook, get_users}
use agentdesk_ai.Api.Responses.{respond, webhook_out, user_out}
use agentdesk_ai.Api.Responses.Secrets.{scrubbed, secrets_hidden}
use agentdesk_ai.Shell.{cors_origins_list}
use agentdesk_ai.Tests.World.{world, host, millionths, settings, start, tables, with_waiting}

-- The vendors' packages are not installed.
abbrev sdk : Sdk ℕ
sdk = record {
  anthropic_installed = false;
  messages_create = λ key model limit system prompt. failure "offline";
  openai_installed = true;
  chat_create = λ key model system prompt. failure "offline";
  embeddings_create = λ key model texts dim. failure "offline";
}

abbrev word_hash : Word → ℕ
word_hash w = length w

abbrev mock_world : Env ℕ
mock_world = record world { providers = configured settings millionths sdk word_hash (λ t. t) }

create_document-stores_example :
    create_document world 1 2 "Reset" "Use the reset link" manual start ≡ (
      ok (
        made world 1 2 "Reset" "Use the reset link" manual start,
        length (texts_of "Use the reset link"),
      ),
      after_store world 1 2 "Reset" "Use the reset link" manual start ((1000000 ∷ []) ∷ []),
    )
unfolding agentdesk_ai.Documents.chunk_text agentdesk_ai.Base.is_space
create_document-stores_example =
    create_document-stores world 1 2 "Reset" "Use the reset link" manual start ((1000000 ∷ []) ∷ [])
      refl refl tt

-- A provider that does not answer.
abbrev silent : Env ℕ
silent = record world { providers = record world.providers { embed = λ texts. failure "timeout" } }

create_document-fails_example :
    (create_document silent 1 2 "Reset" "Use the reset link" manual start).1.committed
    ≡ start.committed
unfolding create_document agentdesk_ai.Documents.chunk_text agentdesk_ai.Base.is_space
create_document-fails_example =
    create_document-fails silent 1 2 "Reset" "Use the reset link" manual start (external "timeout")
      tt refl

create_document-mock_example :
    (vectors : List (List ℕ)) × (length vectors ≡ length (texts_of "Use the reset link"))
    × All (λ v. length v ≡ 3) vectors
    × (create_document mock_world 1 2 "Reset" "Use the reset link" manual start ≡ (
      ok (
        made mock_world 1 2 "Reset" "Use the reset link" manual start,
        length (texts_of "Use the reset link"),
      ),
      after_store mock_world 1 2 "Reset" "Use the reset link" manual start vectors,
    ))
unfolding agentdesk_ai.Providers.vendor_of
create_document-mock_example =
    create_document-mock mock_world 1 2 "Reset" "Use the reset link" manual start sdk word_hash refl
      refl (λ p. absurd (omega arith)) tt

-- The same world on PostgreSQL.
abbrev on_postgresql : Env ℕ
on_postgresql = record world { host = record host { is_postgresql = true } }

hits_of-best_hits_example :
    hits_of on_postgresql 300000 4 1 tables (1000000 ∷ [])
    ≡ nearest_hits on_postgresql 300000 4 1 tables (1000000 ∷ [])
hits_of-best_hits_example =
    hits_of-best_hits on_postgresql (λ x y z e f. ground arith) (λ x y e. ground arith)
      (λ x y e. ground arith) 300000 4 1 tables (1000000 ∷ [])

tickets_by_status-counts_example :
    (sum_counts (metrics_of world 1 with_waiting.committed).tickets_by_status
      ≡ (metrics_of world 1 with_waiting.committed).total_tickets)
    × ((q : TicketStatus)
        → count_for (status_value q) (metrics_of world 1 with_waiting.committed).tickets_by_status
          ≡ if_any (number_of q (own_tickets world 1 with_waiting.committed)))
tickets_by_status-counts_example = tickets_by_status-counts world 1 with_waiting.committed

quotient : (n d : ℕ) → n ≤ d → leb (n * 1000000 * 1000000 / (d * 1000000)) 1000000 ≡ true
quotient n d h =
    ground (arith, div-le_of_le-mul (d * 1000000) {m = n * 1000000 * 1000000} {n = 1000000})

divides : DividesSoundly world
divides = record {
  zero_rate = (refl, refl);
  quotient_rate = λ n d h ne. (ground arith, quotient n d h);
}

metrics_of-rates_example :
    IsRate world (metrics_of world 1 tables).approval_rate
    × IsRate world (metrics_of world 1 tables).escalation_rate
    × IsRate world (metrics_of world 1 tables).retrieval_hit_rate
metrics_of-rates_example = metrics_of-rates world divides 1 tables

perform_read-IsReadOnly_example : IsReadOnly (perform_read world (metrics (some "access")))
perform_read-IsReadOnly_example = perform_read-IsReadOnly world (metrics (some "access"))

secrets_hidden_example :
    (respond (map_option webhook_out) (get_webhook world (some "access") (scrubbed start)).0
      ≡ respond (map_option webhook_out) (get_webhook world (some "access") start).0)
    × (respond (map user_out) (get_users world (some "access") (scrubbed start)).0
        ≡ respond (map user_out) (get_users world (some "access") start).0)
secrets_hidden_example = secrets_hidden world (some "access") start

origins :
    cors_origins_list (record settings { cors_origins = " http://a.example, ,b.example " })
    ≡ "http://a.example" ∷ "b.example" ∷ []
unfolding cors_origins_list
origins = refl
