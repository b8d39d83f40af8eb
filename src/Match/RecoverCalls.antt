-- ===== src/Match/RecoverCalls.antt =====
-- The calls of a `MatchController` about the queue and its matches keep the account of its recoveries.
use geoduels.Base.{
  ℕ, ◌≡◌, refl, sym, subst, String, Bool, true, false, Option, none, some, arith, if◌then◌else◌,
  nat_eq, string_eq, is_value, or_text, truthy, Bool-cases, inl, inr, ◌&&◌,
}
use geoduels.Matchmaking.{
  MatchmakingAction, RecoverOutcome, MatchmakingStatus, set_status, recover_started,
  recover_resolved, recover_failed, ws_closed, game_connected, matchmaking_reducer,
}
use geoduels.Matchmaking
use geoduels.Session.{AuthSessionSnapshot}
use geoduels.MatchSession.{Assignment}
use geoduels.Match.State.{
  MatchController, dispatch_matchmaking, patch_state, set_auto_recover_enabled, start, destroy,
  abort_recover, abort_queue, add_some,
}
use geoduels.Match.Recover.{connect_to_assigned_game}
use geoduels.Match.Queue.{
  join_queue, queue_session, queue_rejected, start_singleplayer, singleplayer_session,
  singleplayer_assigned, singleplayer_rejected, cancel_queue, resume_resolved_match,
  set_queue_error, finish_singleplayer, singleplayer_failed, play_match_found_sfx, new_queue,
}
use geoduels.Match.Tracking.{Tracking, tracking, forget}
use geoduels.Match.RecoverOnce.{IsTracked, forget-IsTracked, dispatch_matchmaking-IsTracked}
use geoduels.Match.RecoverSteps.{connect_to_assigned_game-IsTracked}
use geoduels.Match.RecoverHandlers.{release_queue-IsTracked}

-- The operations that leave the account as it was, but for what aborting adds to it.
pub abort-IsTracked :
    (t : Tracking) → IsTracked t → IsTracked (record t { aborted = add_some t.current t.aborted })
abort-IsTracked t v = record {
  flight = v.flight;
  current_pending = v.current_pending;
  active_pending = v.active_pending;
  others_aborted = λ j p h. ground (arith, v.others_aborted j);
}

pub join_queue-IsTracked :
    (m : MatchController) → IsTracked (tracking m) → IsTracked (tracking (join_queue m))
unfolding join_queue set_queue_error patch_state
join_queue-IsTracked m v = abort-IsTracked (tracking m) v

pub queue_session-IsTracked :
    (m : MatchController) (q : ℕ) (session : Option AuthSessionSnapshot) (now : ℕ)
    → IsTracked (tracking m)
    → IsTracked (tracking (queue_session m q session now))
unfolding queue_session set_queue_error patch_state
queue_session-IsTracked m q none now v =
    release_queue-IsTracked
      (dispatch_matchmaking (set_queue_error m "Unable to create session") Matchmaking.queue_error)
      q
      (dispatch_matchmaking-IsTracked (set_queue_error m "Unable to create session")
        Matchmaking.queue_error refl v)
queue_session-IsTracked m q (some session) now v =
    dispatch_matchmaking-IsTracked m (Matchmaking.join_requested (some now)) refl v

pub queue_rejected-IsTracked :
    (m : MatchController) (q : ℕ) (message : Option String)
    → IsTracked (tracking m)
    → IsTracked (tracking (queue_rejected m q message))
unfolding queue_rejected set_queue_error patch_state
queue_rejected-IsTracked m q none v = release_queue-IsTracked m q v
queue_rejected-IsTracked m q (some message) v =
    release_queue-IsTracked
      (dispatch_matchmaking (set_queue_error m (or_text message "Queue failed"))
        Matchmaking.queue_error)
      q
      (dispatch_matchmaking-IsTracked (set_queue_error m (or_text message "Queue failed"))
        Matchmaking.queue_error refl v)

pub cancel_queue-IsTracked :
    (m : MatchController) (session : Option AuthSessionSnapshot)
    → IsTracked (tracking m)
    → IsTracked (tracking (cancel_queue m session))
unfolding cancel_queue set_queue_error patch_state abort_queue abort_recover
cancel_queue-IsTracked m none v = v
cancel_queue-IsTracked m (some session) v =
    dispatch_matchmaking-IsTracked (abort_queue (abort_recover m)) Matchmaking.leave_requested refl
      (abort-IsTracked (tracking m) v)

pub tracking-destroy : (m : MatchController) → tracking (destroy m) ≡ forget (tracking m)
unfolding destroy
tracking-destroy m = ground arith

pub tracking-set_auto_recover_enabled :
    (m : MatchController) (b : Bool)
    → tracking (set_auto_recover_enabled m b) ≡ (if b then tracking m else forget (tracking m))
unfolding set_auto_recover_enabled
tracking-set_auto_recover_enabled m b = ground arith

pub set_auto_recover_enabled-IsTracked :
    (m : MatchController) (b : Bool)
    → IsTracked (tracking m)
    → IsTracked (tracking (set_auto_recover_enabled m b))
set_auto_recover_enabled-IsTracked m true v =
    subst IsTracked (sym (tracking-set_auto_recover_enabled m true)) v
set_auto_recover_enabled-IsTracked m false v =
    subst IsTracked (sym (tracking-set_auto_recover_enabled m false))
      (forget-IsTracked (tracking m) v)

pub tracking-start : (m : MatchController) → tracking (start m) ≡ tracking m
unfolding start
tracking-start m = ground arith

pub if-IsTracked :
    (b : Bool) (m n : MatchController)
    → IsTracked (tracking m)
    → IsTracked (tracking n)
    → IsTracked (tracking (if b then m else n))
if-IsTracked true m n v w = v
if-IsTracked false m n v w = w

-- `start_singleplayer` before it sets the status.
abbrev singleplayer_patched : MatchController → MatchController
unfolding patch_state abort_queue abort_recover
singleplayer_patched m =
    let aborted = abort_queue (abort_recover (record m { singleplayer_start_in_flight = true })) in
    patch_state aborted (record (aborted.state) { queue_error = ""; connection_issue = "" })

pub start_singleplayer-IsTracked :
    (m : MatchController) → IsTracked (tracking m) → IsTracked (tracking (start_singleplayer m))
unfolding start_singleplayer singleplayer_patched
start_singleplayer-IsTracked m v =
    if-IsTracked m.singleplayer_start_in_flight m
      (new_queue (
        dispatch_matchmaking (singleplayer_patched m)
          (set_status MatchmakingStatus.matched_connecting none)))
      v
      (dispatch_matchmaking-IsTracked (singleplayer_patched m)
        (set_status MatchmakingStatus.matched_connecting none) refl
        (abort-IsTracked (tracking m) v))

pub finish_singleplayer-IsTracked :
    (m : MatchController) (q : ℕ)
    → IsTracked (tracking m)
    → IsTracked (tracking (finish_singleplayer m q))
unfolding finish_singleplayer
finish_singleplayer-IsTracked m q v =
    release_queue-IsTracked (record m { singleplayer_start_in_flight = false }) q v

pub singleplayer_failed-IsTracked :
    (m : MatchController) (q : ℕ) (message : String)
    → IsTracked (tracking m)
    → IsTracked (tracking (singleplayer_failed m q message))
unfolding singleplayer_failed set_queue_error patch_state
singleplayer_failed-IsTracked m q message v =
    finish_singleplayer-IsTracked
      (dispatch_matchmaking (set_queue_error m message) (set_status MatchmakingStatus.ready none)) q
      (dispatch_matchmaking-IsTracked (set_queue_error m message)
        (set_status MatchmakingStatus.ready none) refl v)

pub singleplayer_session-IsTracked :
    (m : MatchController) (q : ℕ) (session : Option AuthSessionSnapshot)
    → IsTracked (tracking m)
    → IsTracked (tracking (singleplayer_session m q session))
unfolding singleplayer_session
singleplayer_session-IsTracked m q none v = singleplayer_failed-IsTracked m q _ v
singleplayer_session-IsTracked m q (some session) v = v

pub singleplayer_assigned-IsTracked :
    (m : MatchController) (q : ℕ) (session : AuthSessionSnapshot) (a : Assignment)
    → IsTracked (tracking m)
    → IsTracked (tracking (singleplayer_assigned m q session a))
unfolding singleplayer_assigned
singleplayer_assigned-IsTracked m q session a v =
    elim (Bool-cases (truthy a.node && truthy a.ticket)) [
      | inr e ↦ rw e (singleplayer_failed-IsTracked m q _ v)
      | inl t ↦ rw t (elim (Bool-cases (is_value m.queue_abort q)) [
        | inl c ↦ rw c (
            finish_singleplayer-IsTracked (connect_to_assigned_game m session a) q
              (connect_to_assigned_game-IsTracked m session a v))
        | inr c ↦ rw c (finish_singleplayer-IsTracked m q v)
      ])
    ]

pub singleplayer_rejected-IsTracked :
    (m : MatchController) (q : ℕ) (message : Option String)
    → IsTracked (tracking m)
    → IsTracked (tracking (singleplayer_rejected m q message))
unfolding singleplayer_rejected
singleplayer_rejected-IsTracked m q none v = finish_singleplayer-IsTracked m q v
singleplayer_rejected-IsTracked m q (some message) v = singleplayer_failed-IsTracked m q _ v

-- `resume_resolved_match` before it connects.
abbrev resumed : MatchController → Bool → MatchController
resumed m play =
    let set =
      dispatch_matchmaking
        (patch_state m (record (m.state) { queue_error = ""; connection_issue = "" }))
        (set_status MatchmakingStatus.matched_connecting none) in
    if play then play_match_found_sfx set else set

pub resumed-IsTracked :
    (m : MatchController) (play : Bool)
    → IsTracked (tracking m)
    → IsTracked (tracking (resumed m play))
unfolding patch_state play_match_found_sfx
resumed-IsTracked m true v =
    dispatch_matchmaking-IsTracked
      (patch_state m (record (m.state) { queue_error = ""; connection_issue = "" }))
      (set_status MatchmakingStatus.matched_connecting none) refl v
resumed-IsTracked m false v =
    dispatch_matchmaking-IsTracked
      (patch_state m (record (m.state) { queue_error = ""; connection_issue = "" }))
      (set_status MatchmakingStatus.matched_connecting none) refl v

pub resume_resolved_match-IsTracked :
    (m : MatchController) (session : Option AuthSessionSnapshot) (a : Assignment) (play : Bool)
    → IsTracked (tracking m)
    → IsTracked (tracking (resume_resolved_match m session a play).0)
unfolding resume_resolved_match
resume_resolved_match-IsTracked m none a play v = v
resume_resolved_match-IsTracked m (some session) a play v =
    elim (Bool-cases (truthy a.node && truthy a.ticket)) [
      | inl t ↦ rw t (
          connect_to_assigned_game-IsTracked (resumed m play) session a
            (resumed-IsTracked m play v))
      | inr e ↦ rw e v
    ]
