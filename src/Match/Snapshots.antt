-- ===== src/Match/Snapshots.antt =====
-- features/matchmaking/controllers/match-controller.ts: which snapshot the controller keeps, and
-- what a connection and its first snapshot's timer do.
use geoduels.Base.{
  ℕ, suc, ◌+◌, ◌≤◌, ◌<◌, max, ◌≡◌, refl, sym, subst, ◌∙◌, String, Bool, true, false, none, some,
  List, [], ◌∷◌, map, arith, if◌then◌else◌, nat_eq, string_eq, is_value, ltb, leb, Bool-cases, inl,
  inr, ◌⊎◌, eq_iff, All,
}
use geoduels.Matchmaking.{MatchmakingStatus, matchmaking_reducer, ws_closed}
use geoduels.Snapshot.{Snapshot}
use geoduels.Config.{RuntimeConfig}
use geoduels.Session.{AuthSessionSnapshot}
use geoduels.Socket
use geoduels.Socket.{
  HandlerCall, on_open, on_close, on_error, on_activity, on_snapshot, on_ack_error,
  on_protocol_error, SocketClient,
}
use geoduels.Match.State.{MatchController, patch_state, dispatch_matchmaking, note_server_activity}
use geoduels.Match.Recover.{
  start_recover, first_snapshot_timer, max_first_snapshot_attempts, snapshot_match_id,
  first_snapshot_retry,
}
use geoduels.Match.Handlers.{handle, handle_all, handle_snapshot, is_outdated}

snapshot-note_server_activity :
    (config : RuntimeConfig) (m : MatchController) (now : ℕ)
    → (note_server_activity config m now).state.snapshot ≡ m.state.snapshot
unfolding note_server_activity
snapshot-note_server_activity config m now = ground arith

outdated_cases :
    (m : MatchController) (s t : Snapshot)
    → m.state.snapshot ≡ some s
    → t.match_id ≡ s.match_id
    → (((if is_outdated m.state.snapshot t then m.state.snapshot else some t) ≡ some s)
        × (max s.event_sequence t.event_sequence ≡ s.event_sequence))
      ⊎ (((if is_outdated m.state.snapshot t then m.state.snapshot else some t) ≡ some t)
          × (max s.event_sequence t.event_sequence ≡ t.event_sequence))
unfolding is_outdated
outdated_cases m s t h same = rw h (elim (Bool-cases (ltb t.event_sequence s.event_sequence)) [
  | inl older ↦ inl (ground (arith, eq_iff s.match_id t.match_id), ground arith)
  | inr newer ↦ inr (ground (arith, eq_iff s.match_id t.match_id), ground arith)
])

module _ (config : RuntimeConfig) where
  -- What `onSnapshot` keeps.
  pub snapshot-handle_snapshot :
      (m : MatchController) (s : Snapshot) (now : ℕ)
      → (handle_snapshot config m s now).state.snapshot
        ≡ (if is_outdated m.state.snapshot s then m.state.snapshot else some s)
  unfolding handle_snapshot patch_state
  snapshot-handle_snapshot m s now = ground arith

  -- The highest sequence number of some snapshots and of the one at hand.
  abbrev pub latest : ℕ → List Snapshot → ℕ
  latest n [] = n
  latest n (s ∷ ss) = latest (max n s.event_sequence) ss

  -- However the snapshots of the match at hand are delivered, in any order and with repetitions,
  -- the controller ends up with one of that match whose event sequence is the highest of all of
  -- them and of the one at hand.
  pub keeps_latest :
      (ss : List Snapshot) (m : MatchController) (s : Snapshot) (now : ℕ)
      → m.state.snapshot ≡ some s
      → All (λ (t : Snapshot). t.match_id ≡ s.match_id) ss
      → (kept : Snapshot) × ((handle_all config m (map on_snapshot ss) now).state.snapshot
          ≡ some kept)
        × (kept.match_id ≡ s.match_id)
        × (kept.event_sequence ≡ latest s.event_sequence ss)
  unfolding handle_all handle
  keeps_latest [] m s now h a = (s, h, refl, refl)
  keeps_latest (t ∷ ss) m s now h (same, a) = elim (outdated_cases m s t h same) [
    | inl (kept, le) ↦ rw le (
        keeps_latest ss (handle_snapshot config m t now) s now
          (snapshot-handle_snapshot m t now ∙ kept) a)
    | inr (kept, le) ↦
        let (k, is, match, top) =
          keeps_latest ss (handle_snapshot config m t now) t now
            (snapshot-handle_snapshot m t now ∙ kept)
            (subst (λ x. All (λ (u : Snapshot). u.match_id ≡ x) ss) (sym same) a) in
        rw le (k, is, match ∙ same, top)
  ]

socket-close : (c : SocketClient) (b : Bool) → (Socket.close c b).socket ≡ none
unfolding Socket.close
socket-close c b = ground arith

-- What the timer leaves in either case: no socket, no timer, no connection.
abbrev pub IsDown : MatchController → String → Type 0
IsDown n issue =
    (n.state.connected ≡ false)
    × (n.socket_client.socket ≡ none)
    × (n.first_snapshot_timeout ≡ none)
    × (n.state.connection_issue ≡ issue)

IsDown-start_recover :
    (m : MatchController) (session : AuthSessionSnapshot) (issue : String) (k : ℕ)
    → IsDown m issue
    → m.first_snapshot_recover_attempts ≡ k
    → IsDown (start_recover m session) issue
      × ((start_recover m session).first_snapshot_recover_attempts ≡ k)
unfolding start_recover
IsDown-start_recover m session issue k d e =
    ((ground arith, ground arith, ground arith, ground arith), ground arith)

gives_up :
    (m : MatchController) (session : AuthSessionSnapshot)
    → m.first_snapshot_timeout ≡ none
    → leb max_first_snapshot_attempts m.first_snapshot_recover_attempts ≡ true
    → let n = first_snapshot_retry m (some session) in
      IsDown n "Could not join the live match. Please retry."
      × (n.state.matchmaking.status ≡ MatchmakingStatus.abandoned)
      × (n.recoveries ≡ m.recoveries)
unfolding first_snapshot_retry matchmaking_reducer
gives_up m session f h = rw h ((refl, socket-close m.socket_client true, f, refl), refl, refl)

tries_again :
    (m : MatchController) (session : AuthSessionSnapshot)
    → m.first_snapshot_timeout ≡ none
    → leb max_first_snapshot_attempts m.first_snapshot_recover_attempts ≡ false
    → let n = first_snapshot_retry m (some session) in
      IsDown n "Still trying to join the live match..."
      × (n.first_snapshot_recover_attempts ≡ m.first_snapshot_recover_attempts + 1)
unfolding first_snapshot_retry matchmaking_reducer
tries_again m session f h =
    let again = record m {
      state = record (m.state) {
        connected = false;
        connection_issue = "Still trying to join the live match...";
      };
      first_snapshot_recover_attempts = m.first_snapshot_recover_attempts + 1;
      socket_client = Socket.close m.socket_client true;
      emitted = if m.destroyed then m.emitted else suc m.emitted;
    } in
    rw h (
      IsDown-start_recover (dispatch_matchmaking again ws_closed) session
        "Still trying to join the live match..." (m.first_snapshot_recover_attempts + 1)
        (refl, socket-close m.socket_client true, f, refl) refl)

-- What the timer makes of `m`: after three tries it abandons the match and starts no recovery;
-- before that it counts one more try.
abbrev pub IsTimedOut : MatchController → MatchController → Type 0
IsTimedOut m n =
    ((3 ≤ m.first_snapshot_recover_attempts)
      × (IsDown n "Could not join the live match. Please retry."
          × (n.state.matchmaking.status ≡ MatchmakingStatus.abandoned)
          × (n.recoveries ≡ m.recoveries)))
    ⊎ ((m.first_snapshot_recover_attempts < 3)
        × (IsDown n "Still trying to join the live match..."
            × (n.first_snapshot_recover_attempts ≡ m.first_snapshot_recover_attempts + 1)))

first_snapshot_timer-eq-retry :
    (m : MatchController) (target : String) (session : AuthSessionSnapshot)
    → m.destroyed ≡ false
    → is_value (snapshot_match_id m.state.snapshot) target ≡ false
    → m.active_session ≡ some session
    → first_snapshot_timer m target none
      ≡ first_snapshot_retry (record m { first_snapshot_timeout = none }) (some session)
unfolding first_snapshot_timer
first_snapshot_timer-eq-retry m target session d j a = simp (d, j, a)

-- The timer of the first snapshot, on a live signed-in controller that has not seen the match,
-- drops socket, timer and connection; after three tries it abandons the match and starts no
-- recovery, and before that it counts one more try.
pub first_snapshot_timer_lem :
    (m : MatchController) (target : String) (session : AuthSessionSnapshot)
    → m.destroyed ≡ false
    → is_value (snapshot_match_id m.state.snapshot) target ≡ false
    → m.active_session ≡ some session
    → IsTimedOut m (first_snapshot_timer m target none)
first_snapshot_timer_lem m target session d j a =
    subst (IsTimedOut m) (sym (first_snapshot_timer-eq-retry m target session d j a))
      (elim (Bool-cases (leb max_first_snapshot_attempts m.first_snapshot_recover_attempts)) [
        | inl full ↦
            inl (
              ground arith,
              gives_up (record m { first_snapshot_timeout = none }) session refl full,
            )
        | inr more ↦ inr (
          ground arith,
          tries_again (record m { first_snapshot_timeout = none }) session refl more,
        )
      ])
