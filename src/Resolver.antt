-- ===== src/Resolver.antt =====
-- proj3/myresolver.cpp and proj3/common.hpp: the DNS resolver.
pub mod Run
pub mod Bytes
pub mod Name
pub mod Question
pub mod Address
pub mod Records
pub mod Answer
pub mod Response
pub mod Attempt
