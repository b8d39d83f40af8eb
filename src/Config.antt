-- ===== src/Config.antt =====
-- lib/runtime-config.ts: the numbers and messages that the controllers read.
use geoduels.Base.{ℕ, String}

pub record RuntimeConfig : Type 0 where
  pub max_hp : ℕ
  pub socket_heartbeat_interval_ms : ℕ
  pub socket_stale_after_ms : ℕ
  pub connection_error_message : String
  pub game_connection_error_message : String

abbrev pub runtime_config : RuntimeConfig
runtime_config = record {
  max_hp = 6_000;
  socket_heartbeat_interval_ms = 20_000;
  socket_stale_after_ms = 35_000;
  connection_error_message = "Connection error";
  game_connection_error_message = "Connection lost. Reconnecting...";
}
