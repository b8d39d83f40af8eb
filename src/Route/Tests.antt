-- ===== src/Route/Tests.antt =====
-- A page whose address changes while its session is refreshed.
use geoduels.Base.{◌≡◌, refl, none, some, List, [], ◌∷◌, true, trim, arith}
use geoduels.Session.{empty_auth_session}
use geoduels.MatchSession.{live_auth_required, history}
use geoduels.Match.State
use geoduels.Route
use geoduels.Route.{
  RouteController, MatchRouteState, Resolution, refreshing, fetching_public, resolving,
  new_controller, initial_state, set_target_match, resolve, clear_pending_work, patch_state,
  is_missing,
}
use geoduels.Route.Resolve.{
  RouteEvent, sets_target, answers, match_changes, public_answer, session_answer, fails, step,
  continue, continue_found, public_resolved, needs_auth, handle_resolved_match, resolve_with,
  answered, finish,
}
use geoduels.Route.Stale.{late_answer_lem, late_session_sticks}
use geoduels.Route.OneLive.{run, live_resolution_is_current}

abbrev two_targets : List RouteEvent
two_targets =
    sets_target (some "m1") (some empty_auth_session)
    ∷ answers 1 (public_answer (some empty_auth_session) (live_auth_required "m1"))
    ∷ sets_target (some " m2 ") (some empty_auth_session)
    ∷ answers 2 (public_answer (some empty_auth_session) (history "m2" none))
    ∷ []

abbrev switched : RouteController
switched = run new_controller two_targets

abbrev first_resolution : Resolution
first_resolution = record { seq = 1; match_id = "m1"; stage = refreshing }

-- The second match's history is shown.
switched_status : switched.state.status ≡ Route.history
unfolding run step set_target_match resolve clear_pending_work patch_state is_missing continue_found
    continue public_resolved needs_auth handle_resolved_match resolve_with answered finish
    new_controller initial_state trim
switched_status = refl

live_resolution_is_current_example :
    (2
      ≡ (run new_controller
          (sets_target (some "m1") none ∷ sets_target (some "m2") none ∷ [])).resolve_seq)
    × ((run new_controller
          (sets_target (some "m1") none ∷ sets_target (some "m2") none ∷ [])).state.target_match_id
        ≡ "m2")
unfolding run step set_target_match resolve clear_pending_work patch_state is_missing new_controller
    initial_state trim
live_resolution_is_current_example =
    live_resolution_is_current (sets_target (some "m1") none ∷ sets_target (some "m2") none ∷ []) 2
      (record { seq = 2; match_id = "m2"; stage = fetching_public }) refl refl

late_answer_lem_example :
    (step switched (answers 1 (session_answer (some empty_auth_session)))).state
    ≡ record (switched.state) { status = resolving }
unfolding run step set_target_match resolve clear_pending_work patch_state is_missing continue_found
    continue public_resolved needs_auth handle_resolved_match resolve_with answered finish
    new_controller initial_state trim
late_answer_lem_example =
    late_answer_lem switched 1 first_resolution (session_answer (some empty_auth_session)) refl
      (λ e. grind arith)

abbrev after_session : RouteController
after_session =
    step (step switched (answers 1 (session_answer (some empty_auth_session))))
      (answers 1 (fails true))

late_session_sticks_example :
    (after_session.state ≡ record (switched.state) { status = resolving })
    × (step after_session (match_changes State.initial_state) ≡ after_session)
    × (step after_session (sets_target (some "m2") none) ≡ after_session)
unfolding run step set_target_match resolve clear_pending_work patch_state is_missing continue_found
    continue public_resolved needs_auth handle_resolved_match resolve_with answered finish
    new_controller initial_state trim
late_session_sticks_example =
    late_session_sticks switched 1 first_resolution none empty_auth_session State.initial_state refl
      refl (λ e. grind arith) refl refl
