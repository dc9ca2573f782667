-- ===== src/Agent.antt =====
-- The agent's side: the command-line client that a tunnel ends at.
pub mod Frame
pub mod Assembler
pub mod Client
pub mod Reconnect
pub mod Local
