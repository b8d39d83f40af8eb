-- ===== src/QueueAnswers/Maintenance.antt =====
-- features/matchmaking/lib/queue-client.ts: what is read of an announced maintenance.
use geoduels.Base.{
  String, Bool, true, false, Option, none, some, if◌then◌else◌, ◌==◌, string_eq, nat_eq, or_else,
  truthy, not, ◌&&◌,
}
use geoduels.Auth.Json.{Json, get, is_object, as_text}
use geoduels.QueueAnswers.Values.{text_in, flag_of}

pub data MaintenancePhase : Type 0 where
  normal warning active : MaintenancePhase

pub record MaintenanceStatus : Type 0 where
  pub phase : MaintenancePhase
  pub starts_at : String
  pub ends_at : String
  pub queue_paused : Bool
  pub play_paused : Bool
  pub message : String

unfoldable pub maintenance_phase : String → MaintenancePhase
maintenance_phase s = if s == "warning" then warning else if s == "active" then active else normal

abbrev pub is_normal : MaintenancePhase → Bool
is_normal normal = true
is_normal phase = false

-- Nothing is paused, announced or under way.
abbrev pub is_idle : MaintenanceStatus → Bool
is_idle s =
    is_normal s.phase
    && not s.queue_paused
    && not s.play_paused
    && not (truthy s.message)
    && not (truthy s.starts_at)
    && not (truthy s.ends_at)

unfoldable pub read_maintenance : Json → MaintenanceStatus
unfolding get text_in as_text flag_of maintenance_phase
read_maintenance v = record {
  phase = maintenance_phase (or_else (as_text (get "phase" v)) "normal");
  starts_at = text_in "startsAt" (some v);
  ends_at = text_in "endsAt" (some v);
  queue_paused = flag_of (get "queuePaused" v);
  play_paused = flag_of (get "playPaused" v);
  message = text_in "message" (some v);
}

abbrev pub kept_status : MaintenanceStatus → Option MaintenanceStatus
kept_status s = if is_idle s then none else some s

unfoldable pub normalize_maintenance_status : Option Json → Option MaintenanceStatus
unfolding is_object read_maintenance
normalize_maintenance_status none = none
normalize_maintenance_status (some v) =
    if is_object v then kept_status (read_maintenance v) else none
