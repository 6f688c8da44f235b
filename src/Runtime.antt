-- ===== src/Runtime.antt =====
-- backend/app/runtime/service.py and clarification.py over the tables of backend/app/db/models.py,
-- seen from one run: every query of these functions but the scans of `recover_stale_attempts` and
-- `repair_unfinished_runs` is for the rows of one run, and those scans treat each run by itself.
pub mod Result
pub mod Unblocks
pub mod State
pub mod Progress
pub mod Finalize
pub mod Guards
pub mod History
pub mod CreateRun
pub mod Dependents
pub mod Cancel
pub mod Stops
pub mod Walks
pub mod RetryTask
pub mod Attempts
pub mod Claim
pub mod Complete
pub mod Clarification
pub mod Recover
pub mod Redis
pub mod Relay
pub mod ReadProgress
pub mod Ends
pub mod Consistent
