-- ===== src/Router.antt =====
-- apps/router/src.
pub mod Types
pub mod State
pub mod Task
pub mod Tagging
