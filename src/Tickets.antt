-- ===== src/Tickets.antt =====
-- The state machine of models/ticket.py, and backend/app/services/ticket_service.py.
pub mod Machine
pub mod History
pub mod Stable
pub mod Transition
pub mod Service
