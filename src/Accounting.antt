-- ===== src/Accounting.antt =====
-- backend/app/llmops/accounting.py: reservations of tokens and cost against the budgets of a run, of
-- a task, of an agent, of the evaluations and of the day, and their settlement.
pub mod Transaction
pub mod Books
pub mod Account
pub mod Reserve
pub mod Settle
pub mod Caps
pub mod Steps
pub mod Within
pub mod Sums
pub mod Balance
