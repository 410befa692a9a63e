-- ===== src/Broker.antt =====
-- The broker: the process of one Unix user that serves the tmux sessions.
pub mod InputLedger
pub mod InputFreshness
pub mod CommandQueue
