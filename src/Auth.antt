-- ===== src/Auth.antt =====
-- Tokens, roles, registration and login: backend/app/core/security.py, core/deps.py, rbac.py,
-- services/auth_service.py and services/user_service.py.
pub mod Tokens
pub mod Access
pub mod Service
pub mod Effects
