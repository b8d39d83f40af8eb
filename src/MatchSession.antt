-- ===== src/MatchSession.antt =====
-- features/matchmaking/lib/queue-client.ts: what the API answers about a match. The snapshot of a
-- finished match may be `null`.
use geoduels.Base.{ℕ, String, Option}
use geoduels.Snapshot.{Snapshot}

pub record Assignment : Type 0 where
  pub match_id : String
  pub node : String
  pub ws_path : String
  pub ticket : String
  pub source_lobby_id : Option String
  pub source_lobby_invite_code : Option String

pub data MatchSessionResponse : Type 0 where
  live_connectable : Assignment → MatchSessionResponse
  live_auth_required : String → MatchSessionResponse
  history : String → Option Snapshot → MatchSessionResponse
  replaced : String → String → MatchSessionResponse
  missing : String → MatchSessionResponse
  forbidden : String → MatchSessionResponse

-- `QueueEvent`. A node or a ticket may be empty.
pub data QueueEvent : Type 0 where
  queue_status : String → Option ℕ → QueueEvent
  match_assigned : Assignment → QueueEvent
  queue_error : String → QueueEvent
