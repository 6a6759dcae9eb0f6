-- ===== src/Tests.antt =====
-- Runs of the code in a small world, and the theorems applied there.
mod World
mod System
mod Knowledge
mod Runs
mod Services
mod Decisions
mod Overlap
mod Guards
