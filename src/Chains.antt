-- ===== src/Chains.antt =====
-- packages/chains: sequences of steps with approval gates.
pub mod Types
pub mod Engine
pub mod Store
