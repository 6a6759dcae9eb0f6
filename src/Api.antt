-- ===== src/Api.antt =====
-- backend/app/api/v1: the routes, and requests and tasks served one after another.
pub mod Routes
pub mod Serve
pub mod Responses
pub mod Refinement
pub mod Isolation
pub mod Flow
pub mod Privacy
pub mod Guards
pub mod Interleaving
pub mod Stability
pub mod Soundness
