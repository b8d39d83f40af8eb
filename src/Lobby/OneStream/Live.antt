-- ===== src/Lobby/OneStream/Live.antt =====
-- features/lobby/controllers/lobby-controller.ts: over every run, which stream is live and which
-- lobby is shown.
use geoduels.Base.{ℕ, ◌≡◌, ◌≢◌, ◌≤◌, ◌<◌, refl, true, false, some, arith, is_some, nat_eq}
use geoduels.MatchSession.{MatchSessionResponse, live_connectable}
use geoduels.Lobby.Controller.{LobbyController, new_controller, initial_state}
use geoduels.Lobby.Connect.{started_answered, started_resumed}
use geoduels.Lobby.Calls.{
  ensure_failed, left, leave_failed, enter_failed, command_answered, start_answered, command_failed,
  reconnect_fires,
}
use geoduels.Lobby.Run.{
  LobbyCall, ensures, ensure_answers, ensure_fails, leave_fails, creates, leaves_done, polls,
  resets, destroys, joins, plays, enters, ends_wait, enter_fails, leaves, ticks, reconnects,
  commands, command_answers, start_answers, command_fails, poll_answers, times_out, reacts, socket,
  started_answers, started_resumes, step, Reach, begins, happens,
}
use geoduels.Lobby.OneStream.{snapshot_id, new_request-IsSound}
use geoduels.Lobby.OneStream.Steps.{
  InOrder, if-InOrder, same-InOrder, reset-InOrder, destroy-InOrder, patch_snapshot-InOrder,
  patch_state-InOrder, poll_answered-InOrder, time_out-InOrder, account-presence_tick, account-poll,
}
use geoduels.Lobby.OneStream.Events.{on_socket-InOrder, react-InOrder}
use geoduels.Lobby.OneStream.Calls.{
  fail_with-InOrder, ensure_stream-InOrder, ensure_lobby-InOrder, ensure_answered-InOrder,
  create_lobby-InOrder, join_lobby-InOrder, playable_session-InOrder, enter_lobby-InOrder,
  entered-InOrder, leave_lobby-InOrder, command-InOrder,
}

started_answered-InOrder :
    (c : LobbyController) (r : MatchSessionResponse) → InOrder c → InOrder (started_answered c r)
unfolding started_answered
started_answered-InOrder c (live_connectable a) v = record { single = v.single }
started_answered-InOrder c r v = v

step-InOrder : (c : LobbyController) (call : LobbyCall) → InOrder c → InOrder (step c call)
unfolding step ensure_failed left leave_failed enter_failed command_answered start_answered
    command_failed reconnect_fires started_resumed
step-InOrder c (ensures code s) v = ensure_lobby-InOrder c code s v
step-InOrder c (ensure_answers o s) v = ensure_answered-InOrder c o s v
step-InOrder c (ensure_fails error) v = fail_with-InOrder c _ v
step-InOrder c (leave_fails error) v = fail_with-InOrder c _ v
step-InOrder c creates v = create_lobby-InOrder c v
step-InOrder c leaves_done v = reset-InOrder c v
step-InOrder c polls v = same-InOrder (account-poll c) v
step-InOrder c resets v = reset-InOrder c v
step-InOrder c destroys v = destroy-InOrder c v
step-InOrder c (joins code) v = join_lobby-InOrder c code v
step-InOrder c (plays r s) v = playable_session-InOrder c r s v
step-InOrder c (enters s l) v = enter_lobby-InOrder c s l v
step-InOrder c (ends_wait fallback r) v = entered-InOrder c fallback r v
step-InOrder c (enter_fails fallback error) v = fail_with-InOrder c _ v
step-InOrder c (leaves s) v = leave_lobby-InOrder c s v
step-InOrder c (ticks s) v = same-InOrder (account-presence_tick c s) v
step-InOrder c (reconnects s) v =
    ensure_stream-InOrder (record c { reconnect_timeout = false }) s (record { single = v.single })
step-InOrder c (commands k s) v = command-InOrder c k s v
step-InOrder c (command_answers l) v = patch_snapshot-InOrder c l _ v
step-InOrder c (start_answers a) v = record { single = v.single }
step-InOrder c (command_fails k error) v = patch_state-InOrder c _ refl refl v
step-InOrder c (poll_answers o) v = poll_answered-InOrder c o v
step-InOrder c (times_out i) v = time_out-InOrder c i v
step-InOrder c (reacts i) v = react-InOrder c i v
step-InOrder c (socket i s e) v = on_socket-InOrder c i s e v
step-InOrder c (started_answers r) v = started_answered-InOrder c r v
step-InOrder c (started_resumes id connected) v =
    if-InOrder connected (record { single = v.single }) v

new_controller-InOrder : InOrder new_controller
unfolding new_controller initial_state
new_controller-InOrder = record {
  single = record {
    latest = λ i h. cc;
    with_session = refl;
    others_aborted = λ i p q h. absurd (omega arith);
    sound = λ i. new_request-IsSound false;
    named = refl;
  };
}

pub Reach-InOrder : {c : LobbyController} → Reach c → InOrder c
Reach-InOrder begins = new_controller-InOrder
Reach-InOrder (happens {c} call r) = step-InOrder c call (Reach-InOrder r)

-- For a lobby controller that any calls, answers and websocket events lead to, in any order: a
-- stream that was made and is not the controller's has an aborted signal and an ended promise, so
-- that at most one is live, and that is the one of the latest request; the controller has a
-- session for it exactly when it has a stream; and the id of the lobby is the snapshot's, or empty
-- where there is no snapshot.
pub one_live_stream :
    {c : LobbyController}
    → Reach c
    → ((i : ℕ)
        → 0 < i
        → i ≤ c.connect_request_id
        → c.stream_abort ≢ some i
        → ((c.requests i).stream.is_aborted ≡ true)
          × (is_some (c.requests i).stream.settled ≡ true))
      × ((i : ℕ) → c.stream_abort ≡ some i → i ≡ c.connect_request_id)
      × (is_some c.stream_session ≡ is_some c.stream_abort)
      × (c.state.lobby_id ≡ snapshot_id c.state.snapshot)
one_live_stream {c} r =
    let v = (Reach-InOrder r).single in
    (
      (λ i p q h. (v.others_aborted i p q h, (v.sound i).aborted_ends (v.others_aborted i p q h))),
      v.latest,
      v.with_session,
      v.named,
    )
