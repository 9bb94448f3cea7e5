-- ===== src/Tests.antt =====
-- Runs of the theorems on concrete inputs.
pub mod Names
pub mod Replies
pub mod Answers
pub mod Search
pub mod Wire
pub mod Sockets
pub mod Events
pub mod Threads
pub mod Chains
pub mod Shares
pub mod Logs
pub mod Programs
