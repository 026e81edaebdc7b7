-- ===== src/Chat.antt =====
-- app/chat: the parts of the chat, one child for each file of it, and their laws.
pub mod RateLimit
pub mod Rates
pub mod Connections
pub mod Sockets
pub mod Registry
pub mod Agreement
pub mod Policy
pub mod Conversations
pub mod Pairs
pub mod Histories
pub mod Messages
pub mod Saving
pub mod Payloads
pub mod Server
pub mod Events
pub mod Leads
pub mod Keeps
pub mod Participants
pub mod Joins
pub mod Privacy
pub mod Broadcasts
pub mod Sends
pub mod World
mod Tests
mod EventTests
