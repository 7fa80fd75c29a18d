-- ===== src/Tunnel.antt =====
-- src/tunnel.rs: the start, the loop that connects again, the loop that serves a connection, the control
-- stream and the proxied streams.
pub mod Retry
pub mod Backoff
pub mod StartUp
pub mod Startable
pub mod Serve
pub mod ControlStream
pub mod Served
pub mod Headers
pub mod Proxy
pub mod Proxied
pub mod Sent
