-- ===== src/Transfer.antt =====
-- Socket::Send and Socket::Recv of scaling/src/Socket.cpp: the loops over `send` and `recv`. What
-- the system's calls do comes as a schedule, one entry for each call.
mod Defs
mod Deliver
unfoldable pub use Defs.*
pub use Deliver.*
