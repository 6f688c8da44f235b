-- ===== src/Public.antt =====
-- backend/app/public: how a visitor's request for an analysis is admitted.
pub mod Rate
pub mod Admission
pub mod Create
