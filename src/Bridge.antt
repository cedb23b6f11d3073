-- ===== src/Bridge.antt =====
-- bridge/: the messages of the pipe, their fields and lines, and the manager that reconnects it.
pub mod Text
pub mod Sanitize
pub mod Protocol
pub mod Reconnect
pub mod Outage
pub mod Lines
pub mod Ranges
pub mod Accepted
pub mod Renders
pub mod Client
pub mod Writer
pub mod Delivery
pub mod Sending
pub mod Opening
pub mod Reader
pub mod Queues
pub mod Intake
