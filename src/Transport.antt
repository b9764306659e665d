-- ===== src/Transport.antt =====
-- inc/transport, src/transport: the transport layer.
pub mod HashTable
pub mod Memory
pub mod Loop
pub mod DataServer
pub mod DataClient
pub mod Timers
