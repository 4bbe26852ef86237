-- ===== src/ApprovalQueue.antt =====
-- packages/approval-queue.
pub mod Types
pub mod Autonomy
pub mod Store
pub mod Trail
pub mod Queue
