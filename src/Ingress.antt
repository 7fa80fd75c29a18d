-- ===== src/Ingress.antt =====
-- src/ingress.rs: loading, checking, reloading and searching the ingress rules.
pub mod FilePath
pub mod Rules
pub mod Reload
pub mod Resolve
