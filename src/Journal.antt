-- ===== src/Journal.antt =====
-- internal/unifiedjournal: the journal of terminal output and its admission ledgers.
pub mod Retention
pub mod SourceQuota
pub mod Eligibility
