-- ===== src/Tests.antt =====
-- Concrete runs of every part, and the theorems applied to them.
mod Gate
mod Queue
mod Chain
mod Router
mod Vault
mod Jobs
