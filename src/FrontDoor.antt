-- ===== src/FrontDoor.antt =====
-- The front door: the web process between the browsers and the brokers.
pub mod FlowWindow
pub mod Leases
pub mod Handles
pub mod Takeovers
