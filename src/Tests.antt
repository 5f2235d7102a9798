-- ===== src/Tests.antt =====
-- Runs of the definitions on concrete inputs, and the theorems applied at concrete inputs.
mod Caches
mod Servers
mod Hashes
mod Libraries
mod Routers
mod Clients
mod Bindings
mod Benchmarks
