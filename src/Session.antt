-- ===== src/Session.antt =====
-- The database session (backend/app/db) as a state-and-exception monad, one child for the state
-- and its operations, one for the rows of a table.
mod State
mod Action
pub mod Rows
pub mod Selected
pub mod Own
pub mod Growth
pub mod Quiet
pub mod ReadOnly
unfoldable pub use State.*
unfoldable pub use Action.*
