-- ===== src/Locator.antt =====
-- The locator service: src/service/locator.cpp and src/service/locator.
pub mod Continuum
pub mod Node
pub mod Links
pub mod Routers
pub mod Sinks
