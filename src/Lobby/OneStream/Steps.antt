-- ===== src/Lobby/OneStream/Steps.antt =====
-- features/lobby/controllers/lobby-controller.ts: what each step does to the streams and to the
-- lobby that is shown.
use geoduels.Base.{
  ℕ, ◌≡◌, refl, sym, subst, String, Bool, true, false, Option, none, some, arith, if◌then◌else◌,
  nat_eq, string_eq,
}
use geoduels.Session.{AuthSessionSnapshot}
use geoduels.Lobby.Types.{LobbySnapshot}
use geoduels.Lobby.Stream.{LobbyStream, Outcome, resolved, rejected, aborted}
use geoduels.Lobby.Stream
use geoduels.Lobby.Controller.{
  LobbyController, LobbyRuntimeState, LobbyRuntimeStatus, Request, patch_state, patch_snapshot,
  presence_tick, start_presence_loop, start_poll_loop, stop_poll_loop, schedule_reconnect, poll,
  poll_answered, abort_stream, update_request, reset, destroy, stop_presence_loop,
  clear_reconnect_timer,
}
use geoduels.Lobby.Connect.{
  stopped, connect_to_lobby, refuse, fulfil, stop_timer, time_out, handle_started_lobby, recover,
}
use geoduels.Lobby.OneStream.{
  IsSound, Account, account, IsSingle, shows_none, shut, connected, shows-IsSingle,
  shows_none-IsSingle, updated-IsSingle, abort_lem, abort-IsSound, shut-IsSingle,
  connected-IsSingle,
}

-- A controller whose streams and lobby are in order.
pub record InOrder (c : LobbyController) : Type 0 where
  pub single : IsSingle (account c)

pub if-InOrder :
    (b : Bool) {c d : LobbyController} → InOrder c → InOrder d → InOrder (if b then c else d)
if-InOrder true v w = v
if-InOrder false v w = w

pub same-InOrder : {c d : LobbyController} → account d ≡ account c → InOrder c → InOrder d
same-InOrder e v = record { single = subst IsSingle (sym e) v.single }

pub moved-InOrder : {c : LobbyController} {a : Account} → account c ≡ a → IsSingle a → InOrder c
moved-InOrder e v = record { single = subst IsSingle (sym e) v }

pub account-presence_tick :
    (c : LobbyController) (s : Option AuthSessionSnapshot) → account (presence_tick c s) ≡ account c
unfolding presence_tick
account-presence_tick c s = ground arith

pub account-start_presence_loop :
    (c : LobbyController) (s : Option AuthSessionSnapshot)
    → account (start_presence_loop c s) ≡ account c
unfolding start_presence_loop
account-start_presence_loop c s = ground arith

pub account-poll : (c : LobbyController) → account (poll c) ≡ account c
unfolding poll
account-poll c = ground arith

pub account-recover : (c : LobbyController) → account (recover c) ≡ account c
unfolding recover start_poll_loop poll schedule_reconnect
account-recover c = ground arith

pub account-handle_started_lobby :
    (c : LobbyController) (l : LobbySnapshot) (i : ℕ)
    → account (handle_started_lobby c l i) ≡ account c
unfolding handle_started_lobby
account-handle_started_lobby c l i = ground arith

account-abort_stream : (c : LobbyController) → account (abort_stream c) ≡ shut (account c)
unfolding abort_stream
account-abort_stream c = ground arith

account-connect_to_lobby :
    (c : LobbyController) (s : AuthSessionSnapshot) (id : String) (waits : Bool)
    → account (connect_to_lobby c s id waits) ≡ connected (shut (account c)) waits
unfolding connect_to_lobby
account-connect_to_lobby c s id waits = ground arith

account-reset : (c : LobbyController) → account (reset c) ≡ shows_none (shut (account c))
unfolding reset
account-reset c = ground arith

pub reset-InOrder : (c : LobbyController) → InOrder c → InOrder (reset c)
reset-InOrder c v =
    moved-InOrder (account-reset c)
      (shows_none-IsSingle (shut (account c)) (shut-IsSingle (account c) v.single))

pub destroy-InOrder : (c : LobbyController) → InOrder c → InOrder (destroy c)
unfolding destroy
destroy-InOrder c v =
    let marked : LobbyController = record c { destroyed = true } in
    moved-InOrder
      (account-abort_stream (clear_reconnect_timer (stop_poll_loop (stop_presence_loop marked))))
      (shut-IsSingle (account c) v.single)

pub connect_to_lobby-InOrder :
    (c : LobbyController) (s : AuthSessionSnapshot) (id : String) (waits : Bool)
    → InOrder c
    → InOrder (connect_to_lobby c s id waits)
connect_to_lobby-InOrder c s id waits v =
    moved-InOrder (account-connect_to_lobby c s id waits)
      (connected-IsSingle (shut (account c)) waits refl (shut-IsSingle (account c) v.single))

pub renew-InOrder :
    (c : LobbyController) (i : ℕ) (r : Request)
    → ((c.requests i).stream.is_aborted ≡ true → r.stream.is_aborted ≡ true)
    → IsSound r.stream
    → InOrder c
    → InOrder (update_request c i r)
unfolding update_request
renew-InOrder c i r keeps s v = record {
  single = updated-IsSingle (account c) i r keeps s v.single;
}

pub update-InOrder :
    (c : LobbyController) (i : ℕ) (r : Request)
    → r.stream ≡ (c.requests i).stream
    → InOrder c
    → InOrder (update_request c i r)
update-InOrder c i r e v =
    renew-InOrder c i r (λ h. grind arith) (subst IsSound (sym e) (v.single.sound i)) v

pub stop_timer-InOrder : (c : LobbyController) (i : ℕ) → InOrder c → InOrder (stop_timer c i)
unfolding stop_timer
stop_timer-InOrder c i v = update-InOrder c i _ refl v

stream-refuse : (r : Request) (text : String) → (refuse r text).stream ≡ r.stream
unfolding refuse
stream-refuse r text = ground arith

pub refuse-InOrder :
    (c : LobbyController) (i : ℕ) (text : String)
    → InOrder c
    → InOrder (update_request c i (refuse (c.requests i) text))
refuse-InOrder c i text v = update-InOrder c i _ (stream-refuse (c.requests i) text) v

pub fulfil-InOrder :
    (c : LobbyController) (i : ℕ) → InOrder c → InOrder (update_request c i (fulfil (c.requests i)))
unfolding fulfil
fulfil-InOrder c i v = update-InOrder c i _ refl v

pub time_out-InOrder : (c : LobbyController) (i : ℕ) → InOrder c → InOrder (time_out c i)
unfolding time_out
time_out-InOrder c i v =
    let r = refuse (stopped (c.requests i)) "Lobby connection timed out" in
    let s = stream-refuse (stopped (c.requests i)) "Lobby connection timed out" in
    if-InOrder (c.requests i).timer
      (renew-InOrder c i (record r { stream = Stream.abort r.stream }) (λ h. abort_lem r.stream)
        (abort-IsSound r.stream (subst IsSound (sym s) (v.single.sound i))) v)
      v

pub patch_snapshot-InOrder :
    (c : LobbyController) (l : LobbySnapshot) (status : LobbyRuntimeStatus)
    → InOrder c
    → InOrder (patch_snapshot c l status)
unfolding patch_snapshot
patch_snapshot-InOrder c l status v = record { single = shows-IsSingle (account c) l v.single }

-- A state that shows the same lobby.
pub patch_state-InOrder :
    (c : LobbyController) (s : LobbyRuntimeState)
    → s.lobby_id ≡ c.state.lobby_id
    → s.snapshot ≡ c.state.snapshot
    → InOrder c
    → InOrder (patch_state c s)
unfolding patch_state
patch_state-InOrder c s e f v = same-InOrder {c = c} (ground arith) v

pub poll_answered-InOrder :
    (c : LobbyController) (o : Option LobbySnapshot) → InOrder c → InOrder (poll_answered c o)
unfolding poll_answered
poll_answered-InOrder c none v = v
poll_answered-InOrder c (some l) v = patch_snapshot-InOrder c l _ v
