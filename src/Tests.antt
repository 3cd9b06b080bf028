-- ===== src/Tests.antt =====
-- The theorems at concrete inputs, in a small world.
mod World
mod Laws
mod Reconciler
mod Parts
mod Plans
mod Calls
mod Secrets
mod Utilities
mod Startup
mod Copies
