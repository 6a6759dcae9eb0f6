-- ===== src/Runs.antt =====
-- backend/app/services/agent_run_service.py
pub mod Record
pub mod Service
