-- ===== src/CostGate.antt =====
-- packages/cost-gate: what a task may cost, and whether it may run now.
pub mod Pricing
pub mod Estimator
pub mod TierRouter
pub mod Ceilings
pub mod Ledger
pub mod Gate
pub mod Store
pub mod Service
pub mod Batches
