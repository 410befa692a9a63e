-- ===== src/ControlMode.antt =====
-- internal/controlmode: the stream of a tmux control-mode observer.
pub mod Bytes
pub mod Payload
pub mod Line
pub mod Decoder
pub mod Router
