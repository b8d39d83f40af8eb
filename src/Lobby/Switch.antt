-- ===== src/Lobby/Switch.antt =====
-- features/lobby/controllers/lobby-controller.ts: what is left of a lobby when another one is looked
-- at, and of a wait when the controller is reset.
use geoduels.Base.{
  ℕ, ◌≡◌, refl, String, true, false, Option, none, some, arith, truthy, ◌∙◌, if◌then◌else◌, ◌==◌,
  nat_eq, string_eq, ap, sym,
}
use geoduels.Session.{AuthSessionSnapshot}
use geoduels.Lobby.Types.{LobbySnapshot, LobbyPatch, lobby_snapshot, lobby_patch}
use geoduels.Lobby.Patch.{patch_lobby, apply_lobby_patch}
use geoduels.Lobby.Controller.{LobbyController, refused, failed, is_member, reset}
use geoduels.Lobby.Connect.{on_event, receive_snapshot, receive_patched, time_out, refuse}
use geoduels.Lobby.Calls.{ensure_lobby, ensure_answered, ensure_found, entered, invite}

if_same {ℓ} : {A : Type ℓ} (n : ℕ) (x y : A) → (if n == n then x else y) ≡ x
if_same n x y = ap (λ b. if b then x else y) ((nat_eq.same_iff n n).1 refl)

-- A lobby that the user only looks at, after the one that a stream is of.
abbrev pub looked_at :
    LobbyController → String → LobbySnapshot → Option AuthSessionSnapshot → LobbyController
looked_at c code other session = ensure_answered (ensure_lobby c code session) (some other) session

module _ (c : LobbyController) (code : String) (other : LobbySnapshot)
    (session : Option AuthSessionSnapshot) (named : truthy (invite code) ≡ true)
    (differs : (c.state.invite_code == invite code) ≡ false)
    (visitor : is_member (some other) session ≡ false) where
  looked_at-state :
      let d = looked_at c code other session in
      (d.state.snapshot ≡ some other)
      × (d.stream_abort ≡ c.stream_abort)
      × (d.connect_request_id ≡ c.connect_request_id)
      × (d.requests ≡ c.requests)
  unfolding ensure_lobby ensure_answered ensure_found
  looked_at-state = (ground arith, ground arith, ground arith, ground arith)

snapshot-receive_snapshot :
    (d : LobbyController) (i : ℕ) (session : Option AuthSessionSnapshot) (lobby : LobbySnapshot)
    → (receive_snapshot d i session lobby).state.snapshot ≡ some lobby
unfolding receive_snapshot
snapshot-receive_snapshot d i session lobby = ground arith

snapshot-receive_patched :
    (d : LobbyController) (i : ℕ) (session : Option AuthSessionSnapshot) (lobby : LobbySnapshot)
    → (receive_patched d i session (some lobby)).state.snapshot ≡ some lobby
unfolding receive_patched
snapshot-receive_patched d i session lobby = ground arith

snapshot-on_event_snapshot :
    (d : LobbyController) (i : ℕ) (session : Option AuthSessionSnapshot) (lobby : LobbySnapshot)
    → i ≡ d.connect_request_id
    → (on_event d i session (lobby_snapshot lobby)).state.snapshot ≡ some lobby
unfolding on_event
snapshot-on_event_snapshot d i session lobby e =
    ap (λ (r : LobbyController). r.state.snapshot)
      (ap (λ b. if b then receive_snapshot d i session lobby else d)
        ((nat_eq.same_iff i d.connect_request_id).1 e))
    ∙ snapshot-receive_snapshot d i session lobby

snapshot-on_event_patch :
    (d : LobbyController) (i : ℕ) (session : Option AuthSessionSnapshot) (lobby : LobbySnapshot)
    (patch : LobbyPatch)
    → i ≡ d.connect_request_id
    → d.state.snapshot ≡ some lobby
    → (on_event d i session (lobby_patch patch)).state.snapshot ≡ some (patch_lobby lobby patch)
unfolding on_event apply_lobby_patch
snapshot-on_event_patch d i session lobby patch e shown =
    ap (λ (r : LobbyController). r.state.snapshot)
      (ap
        (λ b.
          if b then receive_patched d i session (apply_lobby_patch d.state.snapshot patch) else d)
        ((nat_eq.same_iff i d.connect_request_id).1 e))
    ∙ ap (λ o. (receive_patched d i session (apply_lobby_patch o patch)).state.snapshot) shown
    ∙ snapshot-receive_patched d i session (patch_lobby lobby patch)

-- When a lobby with another code is looked at, of which the user is no member, while the
-- controller has the stream of its latest request, then that stream is neither aborted nor
-- replaced: its next snapshot is shown in place of the lobby that is looked at, and its next patch
-- is laid over that lobby.
pub old_stream_outlives_switch :
    (c : LobbyController) (code : String) (other lobby : LobbySnapshot) (patch : LobbyPatch)
    (session : Option AuthSessionSnapshot)
    → c.stream_abort ≡ some c.connect_request_id
    → truthy (invite code) ≡ true
    → (c.state.invite_code == invite code) ≡ false
    → is_member (some other) session ≡ false
    → let d = looked_at c code other session in
      let i = c.connect_request_id in
      (d.stream_abort ≡ some i)
      × (d.requests ≡ c.requests)
      × (d.state.snapshot ≡ some other)
      × ((on_event d i session (lobby_snapshot lobby)).state.snapshot ≡ some lobby)
      × ((on_event d i session (lobby_patch patch)).state.snapshot ≡ some (patch_lobby other patch))
old_stream_outlives_switch c code other lobby patch session current named differs visitor =
    let d = looked_at c code other session in
    let i = c.connect_request_id in
    let s = looked_at-state c code other session named differs visitor in
    (
      s.1 ∙ current,
      s.3,
      s.0,
      snapshot-on_event_snapshot d i session lobby (sym s.2),
      snapshot-on_event_patch d i session other patch (sym s.2) s.0,
    )

abbrev pub timed_out : String
timed_out = "Lobby connection timed out"

kept_wait :
    (c : LobbyController) (i : ℕ)
    → let r = (reset c).requests i in
      let w = c.requests i in
      (r.is_waited ≡ w.is_waited) × (r.timer ≡ w.timer) × (r.ready ≡ w.ready)
unfolding reset
kept_wait c i = (ground arith, ground arith, ground arith)

ready-time_out :
    (d : LobbyController) (i : ℕ)
    → (d.requests i).is_waited ≡ true
    → (d.requests i).timer ≡ true
    → (d.requests i).ready ≡ none
    → ((time_out d i).requests i).ready ≡ some (refused timed_out)
unfolding time_out refuse
ready-time_out d i waited due open_yet = ground arith

-- When the controller is reset while a first snapshot of its stream is waited for, the timeout of
-- the wait stays due, and refuses the wait; and the method that waited then shows its error,
-- though no lobby is left.
pub reset_leaves_timeout :
    (c : LobbyController) (i : ℕ) (fallback : String)
    → (c.requests i).is_waited ≡ true
    → (c.requests i).timer ≡ true
    → (c.requests i).ready ≡ none
    → let d = time_out (reset c) i in
      ((d.requests i).ready ≡ some (refused timed_out))
      × ((entered d fallback (refused timed_out)).0.state ≡ record {
        status = failed;
        lobby_id = "";
        invite_code = "";
        snapshot = none;
        error = timed_out;
      })
unfolding reset time_out refuse entered
reset_leaves_timeout c i fallback waited due open_yet =
    let k = kept_wait c i in
    (ready-time_out (reset c) i (k.0 ∙ waited) (k.1 ∙ due) (k.2 ∙ open_yet), ground arith)
