-- ===== src/Game.antt =====
-- features/game/controllers/game-controller.ts: what the page of a game shows and plays.
pub mod State
pub mod Sounds
pub mod Health
pub mod Results
pub mod Sync
pub mod Calls
pub mod Guesses
pub mod Heard
pub mod Run
pub mod Once
pub mod Bounds
pub mod Placing
mod Tests
