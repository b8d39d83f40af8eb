-- ===== src/Auth.antt =====
-- features/auth: the session of the user, in the controller that keeps and refreshes it, and what it
-- reads of the server's answers.
pub mod Json
pub mod Read
pub mod Expiry
pub mod State
pub mod Calls
pub mod Login
pub mod Fresh
pub mod Run
pub mod Account
pub mod SingleFlight
pub mod RoundTrip
pub mod Given
mod Tests
