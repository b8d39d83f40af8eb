-- ===== src/QueueAnswers.antt =====
-- features/matchmaking/lib/queue-client.ts: what is read of the answers of the queue and of the API,
-- whatever the server sent.
pub mod Values
pub mod Session
pub mod Maintenance
pub mod Requests
pub mod Written
pub mod Clean
pub mod Stable
mod Tests
