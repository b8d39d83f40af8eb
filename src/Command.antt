-- ===== src/Command.antt =====
-- The commands that the controllers send to the gameplay node (`sendGameCommand` of
-- features/matchmaking/controllers/match-controller.ts and its callers), with their payloads. The
-- command's id, of the time and a random number, and its time of sending are left out.
use geoduels.Base.{String, Option, Bool}
use geoduels.Snapshot.{LatLng}

pub data Command : Type 0 where
  ping : Option String → Command
  guess_place : String → String → String → LatLng → Command
  guess_finalize : String → String → String → LatLng → Command
  round_advance : String → String → Command
  leave_match : String → String → Command
  forfeit : String → String → Command

-- `SendGameCommandOptions`.
pub record SendGameCommandOptions : Type 0 where
  pub error_message : Option String
  pub force_reconnect : Bool
  pub silent : Bool
