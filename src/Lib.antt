-- ===== src/Lib.antt =====
-- The backend of AgentDesk AI (backend/app): a desk for support tickets of several organizations. A
-- ticket is created, an agent drafts an answer from the organization's documents, a person approves
-- or rejects it, and the organization's webhook hears of it.
--
-- The parts, and the files that model them:
--   Models     the rows and enums of backend/app/models; Models/Ticket has ALLOWED_TRANSITIONS and
--              can_transition.
--   Session    an SQLAlchemy session as a value: what is committed, what the session sees, the next
--              key, the clock, the tasks handed to Celery and the requests posted. Session/State has
--              the tables, the settings (core/config.py) and the parameters; Session/Action has the
--              actions with commit, rollback, exceptions and `async with SessionLocal()`;
--              Session/Rows reads and writes rows by key; Session/Quiet singles out the actions that
--              leave the tickets alone, Session/ReadOnly those that change nothing, Session/Growth
--              those that write the audit log at its end only; Session/Own has the database of one
--              organization alone.
--   Audit      services/audit_service.py.
--   Json       json.dumps as serialize_payload calls it.
--   Webhooks   services/webhook_service.py: Signing (serialize_payload, sign, verify,
--              build_ticket_payload), Config (get_config, upsert_config), Delivery
--              (enqueue_for_ticket, deliver_once), and Retry, the task deliver_webhook of
--              workers/tasks.py.
--   Tickets    services/ticket_service.py: Transition has transition and the events, Service the
--              other operations, its child Decisions what they commit, Machine what the table of
--              transitions permits, History the events of a ticket read as a run of the machine,
--              Stable what a predicate of the tickets has to survive.
--   Words      the words of agent/nodes.py and providers/mock.py.
--   Retrieval  services/retrieval_service.py.
--   Documents  services/document_service.py: chunk_text, and Service with the other operations.
--   Metrics    services/metrics_service.py.
--   Providers  providers/: Mock (mock.py), Vendors (anthropic.py, openai.py), and the choice of
--              factory.py.
--   Agent      agent/: State, Classifier and Nodes (nodes.py, graph.py), Cost (cost.py).
--   Runs       services/agent_run_service.py: Record has the row of a run, Service its end and its
--              execution; Completion and Escalation say how a run ends that leads to an approval or
--              to a person.
--   Auth       core/security.py (Tokens), core/deps.py and rbac.py (Access), services/auth_service.py
--              and services/user_service.py (Service).
--   Api        api/v1: Routes has the routes, Serve requests and tasks served one after another, each
--              in a session of its own, Soundness the invariant that all of it keeps, Refinement the
--              abstract specification, one state machine for each ticket, Responses the schemas of
--              the answers and the handler of main.py for other exceptions. Stability has what every
--              call preserves of the tickets, over the interface of Tickets/Stable, and Isolation
--              takes it to the tenants. Interleaving is a step relation in which the decisions of
--              approvals.py and the runs of the agent overlap: each loads its ticket in one step and
--              decides or ends in another, and every other call is one step. Guards says which
--              requests are refused, Privacy what the answers depend on, and Flow follows an approval
--              by way of the queue to the receiver of the webhook.
--   Migrations alembic/versions: Columns has the tables, Versions the revisions.
--   Shell      the CORS origins of core/config.py, and api/v1/health.py.
--   Base       shared lists, tests, texts and ORDER BY; Tests runs the code in a small world.
--
-- Conventions. An action takes a session and gives a result, a value or an exception, with the session
-- that it leaves. A ticket that is passed to an operation is the object that the session has loaded:
-- what the code reads of it is read from the argument, and what it assigns is written to the columns of
-- its row, also where a column already had the value, but for a draft that is edited to the loaded one.
-- Keys are numbers, given once each in place of uuid4; a request has one clock. Rows are listed in the
-- order of insertion, which ORDER BY keeps between equal keys. Python's floats are a type `F` with the
-- operations that the code uses, without NaN. The runs of the delivery task take fuel, and
-- `webhook_max_retries + 1` of it is enough for every HTTP client; the loop of chunk_text takes as many
-- rounds as the text has words, and moves on by a word or more in each.
--
-- Parameters, the fields of `Env`: the settings, the HTTP client, HMAC, the JSON web tokens, password
-- hashing, lower case, the broker, the database's dialect and its averages, pgvector's distance and the
-- rows that its approximate index visits, the texts of keys, times and floats, and the LLM and embedding
-- providers. Providers gives a value for the latter, over SHA-256 and the vendors' SDKs as parameters.
--
-- Not modelled: FastAPI's, Celery's and the logger's configuration, rate limits, the check of e-mail
-- addresses and URLs, errors of the database itself, requests and tasks that overlap within a step of
-- Interleaving, the vendors' SDKs, and the operator class and options of the vector index.
pub mod Base
pub mod Models
pub mod Session
pub mod Audit
pub mod Json
pub mod Webhooks
pub mod Tickets
pub mod Words
pub mod Retrieval
pub mod Agent
pub mod Documents
pub mod Metrics
pub mod Providers
pub mod Runs
pub mod Auth
pub mod Api
pub mod Tests
pub mod Migrations
pub mod Shell
