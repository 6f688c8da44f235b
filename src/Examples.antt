-- ===== src/Examples.antt =====
-- Small rows of the tables, and the operations at work on them.
pub mod RunData
pub mod BookData
pub mod Runs
pub mod Graphs
pub mod Spending
pub mod Relays
pub mod Visits
pub mod Creations
