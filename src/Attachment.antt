-- ===== src/Attachment.antt =====
-- internal/attachmentwire.
pub mod Transport
pub mod Notices
