-- ===== src/Contracts.antt =====
-- backend/app/runtime/contracts.py: the statuses, retry policies and workflow graphs.
pub mod Status
pub mod RetryPolicy
pub mod Dag
pub mod Template
