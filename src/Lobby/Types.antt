-- ===== src/Lobby/Types.antt =====
-- features/lobby/lib/lobby-client.ts: a lobby, its members, and what its websocket tells of it.
use geoduels.Base.{ℕ, String, Bool, Option, List}
use geoduels.MatchSession.{Assignment}

pub data PartyMode : Type 0 where
  duel team_duel free_for_all : PartyMode

pub data LobbyTeamId : Type 0 where
  a b : LobbyTeamId

pub data PresenceStatus : Type 0 where
  online away offline : PresenceStatus

-- components/ui/PlayerBadge.tsx.
pub record PlayerBadgeInfo : Type 0 where
  pub id : String
  pub kind : String
  pub label : String
  pub description : String
  pub image_url : String
  pub season_id : Option String
  pub rank : Option ℕ
  pub owned : Option Bool

-- `none` is a field that is not there. A badge that is there may be `null`, and a team `""`.
pub record LobbyMember : Type 0 where
  pub user_id : String
  pub display_name : String
  pub avatar_url : Option String
  pub is_guest : Option Bool
  pub is_admin : Option Bool
  pub selected_badge : Option (Option PlayerBadgeInfo)
  pub team_id : Option (Option LobbyTeamId)
  pub role : String
  pub ready : Option Bool
  pub connected : Option Bool
  pub presence_status : Option PresenceStatus

-- features/matchmaking/lib/queue-client.ts. The rules' name is not looked into.
pub data RoundTimerMode : Type 0 where
  unlimited pressure fixed : RoundTimerMode

pub record MatchConfig : Type 0 where
  pub game_ruleset : Option String
  pub map_key : Option String
  pub round_timer_mode : Option RoundTimerMode
  pub round_time_limit_ms : Option ℕ
  pub pressure_time_limit_ms : Option ℕ

pub data LobbyState : Type 0 where
  opened in_match started closed expired : LobbyState

pub record LobbySnapshot : Type 0 where
  pub id : String
  pub invite_code : String
  pub owner_user_id : String
  pub state : LobbyState
  pub mode : PartyMode
  pub map_scope : String
  pub config : Option MatchConfig
  pub active_match_id : Option String
  pub last_match_id : Option String
  pub started_match_id : Option String
  pub members : List LobbyMember

pub record LobbyPatch : Type 0 where
  pub revision : ℕ
  pub state : Option LobbyState
  pub owner_user_id : Option String
  pub mode : Option PartyMode
  pub config : Option MatchConfig
  pub active_match_id : Option String
  pub last_match_id : Option String
  pub started_match_id : Option String
  pub upsert_members : Option (List LobbyMember)
  pub remove_member_ids : Option (List String)

pub data LobbyEvent : Type 0 where
  lobby_snapshot : LobbySnapshot → LobbyEvent
  lobby_patch : LobbyPatch → LobbyEvent
  match_assigned : Assignment → LobbyEvent
  lobby_error : String → LobbyEvent
