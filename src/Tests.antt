-- ===== src/Tests.antt =====
-- Runs of the theorems on concrete inputs.
mod Streams
mod Messages
mod Requests
mod Tables
mod Assembler
mod Servers
mod Queues
mod Clients
mod Sessions
mod Timers
mod Backlogs
