-- ===== src/Tests.antt =====
-- The theorems at concrete inputs.
mod Data
mod Stores
mod Threads
mod Texts
mod Desks
mod Workers
mod Turns
