-- ===== src/Messaging.antt =====
-- Chat between members: domain/messaging, application/messaging and the tables of
-- adapter/out/db/messaging_repository.go.
pub mod Model
pub mod Tables
pub mod Cache
pub mod Hub
pub mod Service
pub mod Keys
pub mod Requests
pub mod Gates
pub mod Posts
pub mod Sending
pub mod Members
pub mod Invites
pub mod Reads
pub mod Directs
pub mod Meetings
pub mod Typing
pub mod Presence
mod Tests
