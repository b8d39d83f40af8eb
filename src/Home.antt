-- ===== src/Home.antt =====
-- features/home/model/derive-home-model.ts: what the pages show of the states of the session, of the
-- match and of the game.
pub mod Decimal
pub mod Model
pub mod Result
pub mod Names
pub mod Rounds
pub mod Opponents
pub mod Rivals
mod Tests
