-- ===== src/Lobby.antt =====
-- features/lobby: the snapshot of a lobby, the patches that the server sends of it, its websocket,
-- and the controller that keeps the browser in a lobby.
pub mod Types
pub mod Patch
pub mod Stream
pub mod Controller
pub mod Connect
pub mod Calls
pub mod Run
pub mod OneStream
pub mod Recovery
pub mod Switch
mod Tests
