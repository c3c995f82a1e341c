-- ===== src/User.antt =====
-- src/SourceFiles/user_service.cpp and user_event_handler.cpp: users in the database, and the two
-- requests that are answered.
pub mod Service
pub mod Handler
pub mod Codes
pub mod Login
pub mod Overflow
pub mod Subscription
