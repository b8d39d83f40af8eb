-- ===== src/Lobby/Recovery.antt =====
-- features/lobby/controllers/lobby-controller.ts: how a lobby comes back after its stream ended.
use geoduels.Base.{
  ℕ, suc, min, ◌*◌, ◌≡◌, ◌≤◌, refl, String, true, false, some, arith, truthy, if◌then◌else◌, ◌==◌,
  nat_eq, string_eq, Bool, is_some, ◌&&◌, or_text, subst, ap, sym, ◌∙◌,
}
use mathlib.Core.List.{head?}
use geoduels.Session.{AuthSessionSnapshot}
use geoduels.Lobby.Types.{LobbySnapshot}
use geoduels.Lobby.Stream.{Outcome, resolved, rejected, aborted}
use geoduels.Lobby.Controller.{
  LobbyController, reconnecting, failed, update_request, patch_state, start_poll_loop,
  schedule_reconnect, reconnect_delay, streams, is_member, start_poll_loop, schedule_reconnect,
}
use geoduels.Lobby.Connect.{
  stop_timer, refuse, on_outcome, stream_closed, stream_failed, recover, connect_to_lobby,
}
use geoduels.Lobby.Calls.{reconnect_fires, ensure_stream}

-- The stream ended, and not by an abort.
abbrev pub IsUnexpected : Outcome → Type 0
IsUnexpected resolved = Unit
IsUnexpected (rejected error) = Unit
IsUnexpected aborted = ⊥

-- The delay before a reconnection is one second at first, is with each attempt at least twice the
-- last one or ten seconds, does not fall as the attempts go on, and is ten seconds at most.
pub reconnect_delay_bounds :
    (m n : ℕ)
    → m ≤ n
    → (reconnect_delay 0 ≡ 1000)
      × (min (2 * reconnect_delay m) 10000 ≤ reconnect_delay (suc m))
      × (reconnect_delay m ≤ reconnect_delay n)
      × (reconnect_delay n ≤ 10000)
unfolding reconnect_delay
reconnect_delay_bounds m n h = (refl, ground arith, ground arith, ground arith)

if_same {ℓ} : {A : Type ℓ} (n : ℕ) (x y : A) → (if n == n then x else y) ≡ x
if_same n x y = ap (λ b. if b then x else y) ((nat_eq.same_iff n n).1 refl)

-- `c` waits for the reconnection of the lobby of `b`.
pub record IsRecovering (b c : LobbyController) : Type 0 where
  pub same_snapshot : c.state.snapshot ≡ b.state.snapshot
  pub same_id : c.state.lobby_id ≡ b.state.lobby_id
  pub same_request : c.connect_request_id ≡ b.connect_request_id
  pub shown_as : c.state.status ≡ reconnecting
  pub polled : c.poll_interval ≡ true
  pub timed : c.reconnect_timeout ≡ true

-- Its reconnection is due, once it is shown as such.
recover-IsRecovering :
    (d : LobbyController) (lobby : LobbySnapshot)
    → d.state.snapshot ≡ some lobby
    → truthy d.state.lobby_id ≡ true
    → d.state.status ≡ reconnecting
    → IsRecovering d (recover d)
unfolding recover start_poll_loop schedule_reconnect
recover-IsRecovering d lobby shown named status = record {
  same_snapshot = ground arith;
  same_id = ground arith;
  same_request = ground arith;
  shown_as = ground arith;
  polled = ground arith;
  timed = ground arith;
}

-- `b` may differ from `a` in what does not name its lobby.
IsRecovering-of :
    {a b c : LobbyController}
    → b.state.snapshot ≡ a.state.snapshot
    → b.state.lobby_id ≡ a.state.lobby_id
    → b.connect_request_id ≡ a.connect_request_id
    → IsRecovering b c
    → IsRecovering a c
IsRecovering-of e f g v = record {
  same_snapshot = v.same_snapshot ∙ e;
  same_id = v.same_id ∙ f;
  same_request = v.same_request ∙ g;
  shown_as = v.shown_as;
  polled = v.polled;
  timed = v.timed;
}

if_false {ℓ} : {A : Type ℓ} {b : Bool} (x y : A) → b ≡ false → y ≡ (if b then x else y)
if_false x y e = ap (λ b. if b then x else y) (sym e)

if_true {ℓ} : {A : Type ℓ} {b : Bool} (x y : A) → b ≡ true → x ≡ (if b then x else y)
if_true x y e = ap (λ b. if b then x else y) (sym e)

module _ (c : LobbyController) (lobby : LobbySnapshot) (shown : c.state.snapshot ≡ some lobby)
    (named : truthy c.state.lobby_id ≡ true) where
  is_shown : is_some c.state.snapshot ≡ true
  is_shown = ap (λ o. is_some o) shown

  is_both : (is_some c.state.snapshot && truthy c.state.lobby_id) ≡ true
  is_both = ap (λ b. b && truthy c.state.lobby_id) is_shown ∙ named

  -- The failure, told to the views.
  told : ℕ → String → LobbyController
  told i error =
      let timed = stop_timer c i in
      patch_state timed (record (timed.state) {
        status = if is_some c.state.snapshot then reconnecting else failed;
        error = or_text error "Lobby connection failed";
      })

  answered : ℕ → String → LobbyController
  unfolding told
  answered i error = update_request (told i error) i (refuse ((told i error).requests i) error)

  stream_failed_lem :
      (i : ℕ) (error : String)
      → (c.requests i).is_waited ≡ false
      → stream_failed c i error ≡ recover (answered i error)
  unfolding stream_failed answered
  stream_failed_lem i error quiet =
      sym (if_false (answered i error) (recover (answered i error)) quiet)

  failed-IsRecovering :
      (i : ℕ) (error : String)
      → (c.requests i).is_waited ≡ false
      → IsRecovering c (stream_failed c i error)
  unfolding answered stop_timer patch_state update_request
  failed-IsRecovering i error quiet =
      subst (IsRecovering c) (sym (stream_failed_lem i error quiet)) (
        IsRecovering-of {b = answered i error} refl refl refl (
          recover-IsRecovering (answered i error) lobby shown named
            (ap (λ b. if b then reconnecting else failed) is_shown)))

  stream_closed_lem :
      (i : ℕ)
      → (c.requests i).is_waited ≡ false
      → stream_closed c i ≡ recover (patch_state c (record (c.state) { status = reconnecting }))
  unfolding stream_closed
  stream_closed_lem i quiet =
      let again = recover (patch_state c (record (c.state) { status = reconnecting })) in
      let both = is_some c.state.snapshot && truthy c.state.lobby_id in
      let waits =
        update_request (stop_timer c i) i
          (refuse ((stop_timer c i).requests i) "Lobby connection closed") in
      sym (if_true again c is_both ∙ if_false waits (if both then again else c) quiet)

  closed-IsRecovering :
      (i : ℕ) → (c.requests i).is_waited ≡ false → IsRecovering c (stream_closed c i)
  unfolding patch_state
  closed-IsRecovering i quiet =
      let shown_as : LobbyController = patch_state c (record (c.state) { status = reconnecting }) in
      subst (IsRecovering c) (sym (stream_closed_lem i quiet)) (
        IsRecovering-of {b = shown_as} refl refl refl
          (recover-IsRecovering shown_as lobby shown named refl))

  outcome-IsRecovering :
      (o : Outcome)
      → IsUnexpected o
      → (c.requests c.connect_request_id).is_waited ≡ false
      → IsRecovering c (on_outcome c c.connect_request_id o)
  unfolding on_outcome
  outcome-IsRecovering resolved u quiet =
      let id = c.connect_request_id in
      subst (IsRecovering c) (sym (if_same id (stream_closed c id) c))
        (closed-IsRecovering id quiet)
  outcome-IsRecovering (rejected error) u quiet =
      let id = c.connect_request_id in
      subst (IsRecovering c) (sym (if_same id (stream_failed c id error) c))
        (failed-IsRecovering id error quiet)
  outcome-IsRecovering aborted u quiet = elim u [ ]

reconnect_lem :
    (d : LobbyController) (lobby : LobbySnapshot) (session : AuthSessionSnapshot)
    → d.state.snapshot ≡ some lobby
    → truthy d.state.lobby_id ≡ true
    → is_member (some lobby) (some session) ≡ true
    → reconnect_fires d (some session)
      ≡ connect_to_lobby (record d { reconnect_timeout = false }) session d.state.lobby_id false
unfolding reconnect_fires ensure_stream
reconnect_lem d lobby session shown named member = ground arith

-- What a connection that nobody waits for makes of a controller that shows a lobby.
connect_lem :
    (d : LobbyController) (lobby : LobbySnapshot) (session : AuthSessionSnapshot) (id : String)
    → d.state.snapshot ≡ some lobby
    → let c = connect_to_lobby d session id false in
      (c.stream_abort ≡ some (suc d.connect_request_id))
      × (c.connect_request_id ≡ suc d.connect_request_id)
      × (c.state.status ≡ reconnecting)
      × (head? c.log ≡ some (streams id session.access_token))
unfolding connect_to_lobby
connect_lem d lobby session id shown = (ground arith, ground arith, ground arith, ground arith)

-- When the stream of the latest request, which nobody waits for, ends otherwise than by an abort
-- while a lobby with an id is shown, then the lobby is shown as reconnecting, it is polled and a
-- reconnection is due; and when that comes and the user with a session is a member of the shown
-- lobby, a next request connects to it with the session's token.
pub reconnects_after_end :
    (c : LobbyController) (lobby : LobbySnapshot) (o : Outcome) (session : AuthSessionSnapshot)
    → c.state.snapshot ≡ some lobby
    → truthy c.state.lobby_id ≡ true
    → (c.requests c.connect_request_id).is_waited ≡ false
    → IsUnexpected o
    → is_member (some lobby) (some session) ≡ true
    → let d = on_outcome c c.connect_request_id o in
      let e = reconnect_fires d (some session) in
      (d.state.status ≡ reconnecting)
      × (d.poll_interval ≡ true)
      × (d.reconnect_timeout ≡ true)
      × (e.stream_abort ≡ some (suc c.connect_request_id))
      × (e.connect_request_id ≡ suc c.connect_request_id)
      × (e.state.status ≡ reconnecting)
      × (head? e.log ≡ some (streams c.state.lobby_id session.access_token))
reconnects_after_end c lobby o session shown named quiet u member =
    let v = outcome-IsRecovering c lobby shown named o u quiet in
    let d = on_outcome c c.connect_request_id o in
    let s = v.same_snapshot ∙ shown in
    let n = ap (λ id. truthy id) v.same_id ∙ named in
    let r = reconnect_lem d lobby session s n member in
    let k = connect_lem (record d { reconnect_timeout = false }) lobby session d.state.lobby_id s in
    (
      v.shown_as,
      v.polled,
      v.timed,
      ap (λ (e : LobbyController). e.stream_abort) r ∙ k.0 ∙ ap (λ i. some (suc i)) v.same_request,
      ap (λ (e : LobbyController). e.connect_request_id) r ∙ k.1 ∙ ap suc v.same_request,
      ap (λ (e : LobbyController). e.state.status) r ∙ k.2,
      ap (λ (e : LobbyController). head? e.log) r
          ∙ k.3
          ∙ ap (λ id. some (streams id session.access_token)) v.same_id,
    )
