-- ===== src/Tests.antt =====
-- The theorems at concrete inputs, and runs of the definitions.
mod Memory
mod Scheduler
mod Text
mod Processes
mod Storage
mod Bytes
mod Blocks
mod Terminals
mod Cache
mod Names
mod Screens
