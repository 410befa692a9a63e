-- ===== src/Terminal.antt =====
-- internal/terminal: the broker's side of one terminal attachment.
pub mod WorkGate
pub mod Scheduler
pub mod Egress
pub mod History
