-- ===== src/Tests.antt =====
-- The theorems at concrete inputs.
mod Config
mod Ingress
mod Capnp
mod Streams
mod StartUp
mod HeaderMaps
mod Tunnel
mod Registration
mod Json
mod Parts
