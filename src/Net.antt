-- ===== src/Net.antt =====
-- src/HeaderFiles/NetworkInterface.h and SourceFiles/NetworkInterface.cpp: sessions of the
-- connected clients and the callbacks of the event loop, over the parts of libevent that they call.
pub mod Io
pub mod Session
pub mod Request
pub mod Response
pub mod Listen
