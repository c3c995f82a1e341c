-- ===== src/Dispatch.antt =====
-- src/HeaderFiles/DispatchMsgService.h and SourceFiles/DispatchMsgService.cpp: events are handed to
-- their subscribers by the threads of the pool, and the responses to the clients by the main loop.
pub mod Subscribers
pub mod Process
pub mod Parse
pub mod Answer
pub mod Enqueue
