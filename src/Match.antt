-- ===== src/Match.antt =====
-- features/matchmaking/controllers/match-controller.ts: `MatchController`, which joins the queue,
-- keeps the socket of the match and recovers it. `State` has its fields and helpers, `Recover`
-- the asynchronous recovery and the first snapshot's timer, `Handlers` what the socket
-- reports, `Queue` the queue and practice, and `Events` the whole.
pub mod State
pub mod Recover
pub mod Handlers
pub mod Queue
pub mod Events
pub mod Tracking
pub mod RecoverOnce
pub mod RecoverSteps
pub mod RecoverHandlers
pub mod RecoverCalls
pub mod RecoverRuns
pub mod Snapshots
pub mod Calls
mod Tests
