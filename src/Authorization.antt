-- ===== src/Authorization.antt =====
-- Access control of the core services: src/authorization.
pub mod Storage
pub mod Event
