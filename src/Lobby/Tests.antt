-- ===== src/Lobby/Tests.antt =====
-- A lobby of two members, run through its controller.
use geoduels.Base.{
  ℕ, suc, min, ◌*◌, ◌≡◌, ◌≢◌, ◌≤◌, ◌<◌, refl, String, true, false, none, some, List, [], ◌∷◌, arith,
  is_some, or_else, trim, upper, eq_iff,
}
use mathlib.Core.List.{head?}
use geoduels.Session.{AuthSessionSnapshot}
use geoduels.Lobby.Types.{
  lobby_snapshot, lobby_patch, LobbyMember, LobbySnapshot, LobbyPatch, opened, started, duel,
  online, away,
}
use geoduels.Lobby.Patch.{patch_lobby, merge, patch_members}
use geoduels.Lobby.Patch.View.{Distinct, view, put_all, remove_all, members-patch_lobby}
use geoduels.Lobby.Stream.{LobbyStream, rejected, snapshot_data}
use geoduels.Lobby.Stream
use geoduels.Lobby.Controller.{
  LobbyController, new_controller, reconnecting, failed, refused, streams, reconnect_delay,
  new_request, reset,
}
use geoduels.Lobby.Connect.{connect_to_lobby, on_event, on_outcome, time_out}
use geoduels.Lobby.Calls.{enter_lobby, entered, reconnect_fires}
use geoduels.Lobby.Run.{Reach, begins, happens, enters, socket, receives, resets, step}
use geoduels.Lobby.Run
use geoduels.Lobby.OneStream.{snapshot_id}
use geoduels.Lobby.OneStream.Live.{one_live_stream}
use geoduels.Lobby.Recovery.{reconnect_delay_bounds, reconnects_after_end}
use geoduels.Lobby.Switch.{looked_at, old_stream_outlives_switch, reset_leaves_timeout, timed_out}

abbrev member : String → String → LobbyMember
member id role = record {
  user_id = id;
  display_name = id;
  avatar_url = none;
  is_guest = none;
  is_admin = none;
  selected_badge = none;
  team_id = none;
  role = role;
  ready = none;
  connected = some true;
  presence_status = some online;
}

abbrev lobby_of : String → String → List LobbyMember → LobbySnapshot
lobby_of id code members = record {
  id = id;
  invite_code = code;
  owner_user_id = "u1";
  state = opened;
  mode = duel;
  map_scope = "world";
  config = none;
  active_match_id = none;
  last_match_id = none;
  started_match_id = none;
  members = members;
}

abbrev two : LobbySnapshot
two = lobby_of "l1" "ABC" (member "u1" "owner" ∷ member "u2" "member" ∷ [])

abbrev empty : LobbySnapshot
empty = lobby_of "l2" "XYZ" (member "u9" "owner" ∷ [])

-- The second member leaves, a third comes, and the first is made known as away.
abbrev news : LobbyPatch
news = record {
  revision = 2;
  state = some started;
  owner_user_id = none;
  mode = none;
  config = none;
  active_match_id = none;
  last_match_id = none;
  started_match_id = some "m1";
  upsert_members = some (
      record (member "u1" "owner") { connected = none; presence_status = some away }
      ∷ member "u3" "member"
      ∷ []);
  remove_member_ids = some ("u2" ∷ []);
}

-- A field that is not sent stays as it was.
patched_members :
    (patch_lobby two news).members
    ≡ record (member "u1" "owner") { presence_status = some away } ∷ member "u3" "member" ∷ []
unfolding patch_lobby merge patch_members
patched_members = refl

two-Distinct : Distinct two.members
two-Distinct = ((λ e. ground (arith, eq_iff "u2" "u1"), tt), (tt, tt))

members-patch_lobby_example :
    Distinct (patch_lobby two news).members
    × ((k : String)
        → view (patch_lobby two news).members k
          ≡ put_all
              (or_else news.upsert_members [])
              (remove_all (or_else news.remove_member_ids []) (view two.members))
              k)
members-patch_lobby_example = members-patch_lobby two news two-Distinct

abbrev session : AuthSessionSnapshot
session = record {
  user_id = "u1";
  access_token = "token";
  onboarding_required = false;
  auth_migration_required = none;
  can_play = none;
  nickname_input = "";
  recovery_available = none;
  linked_providers = none;
  expires_at = none;
}

-- The lobby is entered, waits, and shows its first snapshot.
abbrev waiting : LobbyController
waiting = step new_controller (enters session two)

abbrev in_lobby : LobbyController
in_lobby = step waiting (socket 1 (some session) (receives (snapshot_data two)))

in_lobby-Reach : Reach in_lobby
in_lobby-Reach =
    happens (socket 1 (some session) (receives (snapshot_data two)))
      (happens (enters session two) begins)

one_live_stream_example :
    ((i : ℕ)
      → 0 < i
      → i ≤ in_lobby.connect_request_id
      → in_lobby.stream_abort ≢ some i
      → ((in_lobby.requests i).stream.is_aborted ≡ true)
        × (is_some (in_lobby.requests i).stream.settled ≡ true))
    × ((i : ℕ) → in_lobby.stream_abort ≡ some i → i ≡ in_lobby.connect_request_id)
    × (is_some in_lobby.stream_session ≡ is_some in_lobby.stream_abort)
    × (in_lobby.state.lobby_id ≡ snapshot_id in_lobby.state.snapshot)
one_live_stream_example = one_live_stream in_lobby-Reach

reconnect_delay_bounds_example :
    (reconnect_delay 0 ≡ 1000)
    × (min (2 * reconnect_delay 1) 10000 ≤ reconnect_delay 2)
    × (reconnect_delay 1 ≤ reconnect_delay 7)
    × (reconnect_delay 7 ≤ 10000)
reconnect_delay_bounds_example = reconnect_delay_bounds 1 7 (omega arith)

reconnects_after_end_example :
    let d = on_outcome in_lobby in_lobby.connect_request_id (rejected "Lobby connection failed") in
    let e = reconnect_fires d (some session) in
    (d.state.status ≡ reconnecting)
    × (d.poll_interval ≡ true)
    × (d.reconnect_timeout ≡ true)
    × (e.stream_abort ≡ some (suc in_lobby.connect_request_id))
    × (e.connect_request_id ≡ suc in_lobby.connect_request_id)
    × (e.state.status ≡ reconnecting)
    × (head? e.log ≡ some (streams in_lobby.state.lobby_id session.access_token))
unfolding step new_controller enter_lobby connect_to_lobby Run.on_socket Stream.on_message on_event
reconnects_after_end_example =
    reconnects_after_end in_lobby two (rejected "Lobby connection failed") session refl refl refl tt
      refl

old_stream_outlives_switch_example :
    let d = looked_at in_lobby " xyz" empty (some session) in
    let i = in_lobby.connect_request_id in
    (d.stream_abort ≡ some i)
    × (d.requests ≡ in_lobby.requests)
    × (d.state.snapshot ≡ some empty)
    × ((on_event d i (some session) (lobby_snapshot two)).state.snapshot ≡ some two)
    × ((on_event d i (some session) (lobby_patch news)).state.snapshot
        ≡ some (patch_lobby empty news))
unfolding step new_controller enter_lobby connect_to_lobby Run.on_socket Stream.on_message on_event
    upper trim
old_stream_outlives_switch_example =
    old_stream_outlives_switch in_lobby " xyz" empty two news (some session) refl refl refl refl

reset_leaves_timeout_example :
    let d = time_out (reset waiting) 1 in
    ((d.requests 1).ready ≡ some (refused timed_out))
    × ((entered d "Could not join lobby" (refused timed_out)).0.state ≡ record {
      status = failed;
      lobby_id = "";
      invite_code = "";
      snapshot = none;
      error = timed_out;
    })
unfolding step new_controller enter_lobby connect_to_lobby new_request
reset_leaves_timeout_example = reset_leaves_timeout waiting 1 "Could not join lobby" refl refl refl
