-- ===== src/Config.antt =====
-- src/config.rs: the tunnel token and the ingress rules.
mod Token
mod Rule
pub mod Matching
pub mod Credentials
unfoldable pub use Token.*
unfoldable pub use Rule.*
