-- ===== src/Stream.antt =====
-- class Stream of scaling/src/Socket.hpp and Socket.cpp: values written to a connection and read
-- from it.
pub mod Io
pub mod Numbers
pub mod Text
pub mod Containers
