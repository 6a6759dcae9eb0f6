-- ===== src/Tests/System.antt =====
-- Requests and tasks, one after another.
use agentdesk_ai.Base.{ℕ, ◌≡◌, refl, Option, none, some, List, [], ◌∷◌, ◌++◌, String, map}
use agentdesk_ai.Models.Ticket.{Ticket, medium, new, approved}
use agentdesk_ai.Session.{Session}
use agentdesk_ai.Tickets.History.{IsSound, Stays}
use agentdesk_ai.Tickets.History.Trails.{Moved}
use agentdesk_ai.Session.Rows.{get, ticket_row}
use agentdesk_ai.Api.Refinement.{beginning, serve-Moved}
use agentdesk_ai.Tickets.History.Sessions.{IsSoundSession}
use agentdesk_ai.Api.Serve.{Call, post_ticket, run_workflow, approve, serve}
use agentdesk_ai.Api.Soundness.{serve-IsSoundSession}
use agentdesk_ai.Tests.World.{world, start}

-- A ticket is created, a draft is written for it, and the draft is approved.
abbrev calls : List (ℕ × Call ℕ)
calls =
    (200, post_ticket (some "access") "Password reset" "I need a reset link" medium)
    ∷ (201, run_workflow (some "access") 100)
    ∷ (202, approve (some "access") 100 none)
    ∷ []

abbrev served : Session ℕ
served = serve world calls start

-- The run takes the ticket to the approval, and the approval is given.
statuses : map (λ t. t.status) served.committed.tickets ≡ approved ∷ []
unfolding serve agentdesk_ai.Api.Routes.current_user agentdesk_ai.Auth.Access.get_current_user
    agentdesk_ai.Auth.Access.require_role agentdesk_ai.Tickets.Service.create_ticket
    agentdesk_ai.Tickets.Service.get_ticket agentdesk_ai.Runs.Record.start_run
    agentdesk_ai.Retrieval.search_chunks agentdesk_ai.Base.Order.order_by
    agentdesk_ai.Tickets.Service.approve agentdesk_ai.Base.is_blank
statuses = refl

-- The session with one ticket that has been created, and the approval that it waits for.
abbrev opened : Session ℕ
opened =
    serve world
      ((200, post_ticket (some "access") "Password reset" "I need a reset link" medium) ∷ []) start

pub none_before : (t : Ticket) → none ≡ some t → Stays t []
none_before t e = cc

abbrev pub start-IsSound : IsSound beginning 100 [] []
start-IsSound = record {
  ticket_keys = tt;
  event_keys = tt;
  histories = tt;
  finals = tt;
  kept = none_before;
  grown = ([], refl);
}

abbrev pub start-IsSoundSession : IsSoundSession beginning start
start-IsSoundSession = record { seen = start-IsSound; stored = start-IsSound }

serve-IsSoundSession_example : IsSoundSession beginning served
serve-IsSoundSession_example = serve-IsSoundSession world calls start start-IsSoundSession

opened-IsSoundSession : IsSoundSession beginning opened
opened-IsSoundSession = serve-IsSoundSession world _ start start-IsSoundSession

-- The ticket that is created first.
abbrev pub created : Ticket
created = record {
  id = 100;
  organization_id = 1;
  title = "Password reset";
  description = "I need a reset link";
  priority = medium;
  status = new;
  suggested_type = none;
  suggested_priority = none;
  draft_response = none;
  final_response = none;
  created_by = some 2;
  created_at = 200;
  updated_at = 200;
}

created_there : get 100 opened.committed.tickets ≡ some created
unfolding serve agentdesk_ai.Api.Routes.current_user agentdesk_ai.Auth.Access.get_current_user
    agentdesk_ai.Auth.Access.require_role agentdesk_ai.Tickets.Service.create_ticket
created_there = refl

abbrev later : List (ℕ × Call ℕ)
later = (201, run_workflow (some "access") 100) ∷ (202, approve (some "access") 100 none) ∷ []

serve-Moved_example :
    (u : Ticket) × (get 100 (serve world later opened).committed.tickets ≡ some u) × Moved created u
serve-Moved_example = serve-Moved world later opened created opened-IsSoundSession created_there
