-- ===== src/Runtime.antt =====
-- The rendezvous of two local processes, src/runtime: a record in a private directory names the port
-- and the token of a session, and the token authenticates the connections to it. The operating system
-- is an argument, as the answers that its calls give; the POSIX branch of the source is modelled.
pub mod Rendezvous
pub mod Directory
pub mod Auth
pub mod Handshake
