-- ===== src/Tests.antt =====
-- Runs of the model on concrete inputs, and the theorems applied to them.
pub mod World
pub mod Vmm
pub mod Span
pub mod Heap
pub mod Arith
pub mod Api
pub mod Race
pub mod Startup
pub mod Threads
pub mod Locks
pub mod Mailbox
