-- ===== src/Proto.antt =====
-- internal/proto: the framed protocol between the front door and the brokers.
pub mod Frame
