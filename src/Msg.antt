-- ===== src/Msg.antt =====
-- inc/msg, src/msg: the messaging layer.
pub mod Header
pub mod Message
pub mod Batch
pub mod Frame
pub mod Assembler
pub mod Multiplexer
pub mod Outgoing
pub mod Request
pub mod RequestPool
pub mod Client
pub mod Backlog
pub mod Server
