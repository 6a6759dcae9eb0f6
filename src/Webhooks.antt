-- ===== src/Webhooks.antt =====
-- backend/app/services/webhook_service.py and the delivery task of backend/app/workers/tasks.py.
pub mod Signing
pub mod Config
pub mod Delivery
pub mod Retry
