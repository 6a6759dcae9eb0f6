-- ===== src/Tests/World.antt =====
-- A small world to run the code in: floats as millionths, one organization with one administrator,
-- a webhook, and libraries that answer in a fixed way.
use Prim.Native.Nat.{◌^◌}
use agentdesk_ai.Base.{
  ℕ, ◌+◌, ◌-◌, ◌*◌, ◌/◌, true, false, Option, none, some, List, [], ◌∷◌, String, str_eq, leb,
  length, ◌==◌, if◌then◌else◌,
}
use agentdesk_ai.Models.Ticket.{Ticket, medium, waiting_approval}
use agentdesk_ai.Models.Records.{
  AgentRun, User, admin, Webhook, WebhookDelivery, DeliveryStatus, null, DocumentChunk,
}
use agentdesk_ai.Runs.Record.{new_run}
use agentdesk_ai.Session.{
  Db, Session, Settings, Floats, Providers, Host, Env, Claims, Request, HttpOutcome, response,
  answer,
}

abbrev total : List ℕ → ℕ
total [] = 0
total (x ∷ xs) = x + total xs

abbrev pub millionths : Floats ℕ
millionths = record {
  literal = λ m k. m * (1000000 / (10 ^ k));
  of_int = λ n. n * 1000000;
  le = leb;
  add = λ x y. x + y;
  sub = λ x y. x - y;
  mul = λ x y. x * y / 1000000;
  div = λ x y. x * 1000000 / y;
  sqrt = λ x. x;
  sum = total;
  round = λ x k. x;
}

abbrev pub settings : Settings ℕ
settings = record {
  access_token_minutes = 30;
  refresh_token_days = 7;
  confidence_threshold = 600000;
  similarity_threshold = 300000;
  retrieval_top_k = 4;
  agent_run_eager = true;
  webhook_max_retries = 5;
  webhook_backoff_base_seconds = 2000000;
  webhook_delivery_eager = false;
  webhook_dispatch_enabled = true;
  llm_provider = "mock";
  embedding_provider = "mock";
  embedding_dim = 3;
  anthropic_api_key = none;
  openai_api_key = none;
  cors_origins = "http://localhost:3000";
}

abbrev pub secret : String
secret = "a secret of the tests"

abbrev pub ada : User
ada = record {
  id = 2;
  organization_id = 1;
  email = "ada@example.org";
  hashed_password = "hash";
  role = admin;
  is_active = true;
  created_at = 10;
}

abbrev claims_of : String → ℕ → Claims
claims_of type exp = record {
  sub = some "2";
  type = some type;
  iat = 100;
  exp = exp;
  org = if str_eq type "access" then some "1" else none;
  role = if str_eq type "access" then some "admin" else none;
}

-- The library's tokens, as far as the tests need them: one of each type, issued at 100.
abbrev decode : ℕ → String → Option Claims
decode now token =
    if str_eq token "access"
    then some (claims_of "access" 1900)
    else if str_eq token "refresh"
    then some (claims_of "refresh" 604900)
    else none

abbrev pub host : Host ℕ
host = record {
  str_id = λ n. if n == 1 then "1" else if n == 2 then "2" else "id";
  isoformat = λ n. "time";
  str_float = λ x. "0.5";
  hmac_sha256 = λ key body. key;
  client = λ r. response 200;
  broker_accepts = λ t. true;
  elapsed_ms = 12;
  parse_id = λ t. if str_eq t "2" then some 2 else none;
  py_lower = λ t. t;
  sql_lower = λ t. t;
  hash_password = λ t. "hash";
  verify_password = λ p h. str_eq p "password";
  jwt_encode = λ c. elim c.type [ none ↦ "none" | some t ↦ t ];
  jwt_decode = decode;
  is_postgresql = false;
  cosine_distance = λ a b. 0;
  index_visits = λ q v. true;
  sql_avg_int = λ ns. total ns * 1000000 / length ns;
  sql_avg_float = λ xs. total xs / length xs;
}

abbrev providers : Providers ℕ
providers = record {
  complete = λ prompt system context. answer (record {
    text = "Use the reset link.";
    prompt_tokens = 20;
    completion_tokens = 5;
    model = "mock-1";
  });
  embed = λ texts. answer ((1000000 ∷ []) ∷ []);
}

abbrev pub world : Env ℕ
world = record { settings = settings; host = host; floats = millionths; providers = providers }

abbrev pub hook : Webhook
hook = record {
  id = 3;
  organization_id = 1;
  url = "https://example.org/hook";
  secret = secret;
  is_active = true;
  created_at = 15;
}

abbrev pub delivery : WebhookDelivery ℕ
delivery = record {
  id = 4;
  webhook_id = 3;
  organization_id = 1;
  event = "ticket.approved";
  payload = null;
  status = DeliveryStatus.pending;
  attempts = 0;
  last_status_code = none;
  last_error = none;
  created_at = 20;
}

abbrev pub chunk : DocumentChunk ℕ
chunk = record {
  id = 5;
  document_id = 6;
  organization_id = 1;
  content = "reset link";
  embedding = 1000000 ∷ [];
  chunk_index = 0;
}

-- A ticket of the organization, waiting for its approval.
abbrev pub waiting : Ticket
waiting = record {
  id = 7;
  organization_id = 1;
  title = "Login";
  description = "I cannot log in";
  priority = medium;
  status = waiting_approval;
  suggested_type = none;
  suggested_priority = none;
  draft_response = some "Use the reset link.";
  final_response = none;
  created_by = some 2;
  created_at = 30;
  updated_at = 30;
}

abbrev pub tables : Db ℕ
tables = record {
  organizations = record { id = 1; name = "Example" } ∷ [];
  users = ada ∷ [];
  tickets = [];
  ticket_events = [];
  agent_runs = [];
  audit_logs = [];
  webhooks = hook ∷ [];
  webhook_deliveries = delivery ∷ [];
  documents = [];
  document_chunks = chunk ∷ [];
}

abbrev session_of : Db ℕ → Session ℕ
session_of db = record {
  committed = db;
  working = db;
  next_id = 100;
  now = 200;
  queued = [];
  posted = [];
}

-- No ticket yet.
abbrev pub start : Session ℕ
start = session_of tables

-- One ticket that waits for its approval.
abbrev pub with_waiting : Session ℕ
with_waiting = session_of (record tables { tickets = waiting ∷ [] })

-- A run of the agent on that ticket, just begun.
abbrev pub begun : AgentRun ℕ
begun = new_run 8 40 waiting

abbrev pub with_run : Session ℕ
with_run = session_of (record tables { tickets = waiting ∷ []; agent_runs = begun ∷ [] })

abbrev pub refuse_all : ℕ → Request → HttpOutcome
refuse_all n r = response 503
