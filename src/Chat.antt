-- ===== src/Chat.antt =====
-- project/CHAT: the chat server on top of a network library, a database and Redis.
pub mod Database
pub mod Json
pub mod Samples
pub mod Models
pub mod Tables
pub mod Statements
pub mod Redis
pub mod Service
pub mod Client
pub mod Main
pub mod RoundTrip
