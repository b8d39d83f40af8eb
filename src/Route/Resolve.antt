-- ===== src/Route/Resolve.antt =====
-- features/matchmaking/controllers/match-route-controller.ts: `resolve` after each await, and
-- everything that can happen to the controller.
use geoduels.Base.{
  ℕ, String, Bool, false, Option, none, some, List, [], ◌∷◌, if◌then◌else◌, ◌==◌, string_eq, nat_eq,
  is_value, truthy, or_else, ◌&&◌,
}
use geoduels.Session.{AuthSessionSnapshot}
use geoduels.MatchSession.{Assignment, MatchSessionResponse, live_connectable, live_auth_required}
use geoduels.Match.State.{MatchState}
use geoduels.Route
use geoduels.Route.{
  RouteController, MatchRouteState, Resolution, Stage, fetching_public, bootstrapping, refreshing,
  fetching_private, resuming, set_status, fetches, bootstraps, refreshes_session, applies_session,
  resumes, bootstrapping_auth, resolving, awaiting_first_snapshot, history, replaced, missing,
  forbidden, match_changed, set_target_match,
}

-- What the client reads of the answer to a bootstrap.
pub record BootstrapAuth : Type 0 where
  pub access_token : Option String
  pub onboarding_required : Option Bool
  pub suggested_nickname : Option String
  pub user_id : Option String
  pub is_guest : Option Bool

unfoldable pub build_session_snapshot : BootstrapAuth → AuthSessionSnapshot
build_session_snapshot auth = record {
  user_id = or_else auth.user_id "";
  access_token = or_else auth.access_token "";
  onboarding_required = or_else auth.onboarding_required false;
  auth_migration_required = none;
  can_play = none;
  nickname_input = or_else auth.suggested_nickname "";
  recovery_available = none;
  linked_providers = none;
  expires_at = none;
}

abbrev pub find_resolution : ℕ → List Resolution → Option Resolution
find_resolution i [] = none
find_resolution i (r ∷ rs) = if r.seq == i then some r else find_resolution i rs

abbrev pub remove_resolution : ℕ → List Resolution → List Resolution
remove_resolution i [] = []
remove_resolution i (r ∷ rs) =
    let rest = remove_resolution i rs in if r.seq == i then rest else r ∷ rest

-- A resolution goes on to wait elsewhere.
abbrev pub waits : RouteController → Resolution → Stage → RouteController
waits c r stage = record c {
  resolutions = record r { stage = stage } ∷ remove_resolution r.seq c.resolutions;
}

-- The `finally` block.
unfoldable pub finish : RouteController → Resolution → RouteController
finish c r = record c {
  request = if is_value c.request r.seq then none else c.request;
  resolutions = remove_resolution r.seq c.resolutions;
}

-- `seq === this.resolveSeq && this.state.targetMatchId === matchId`.
abbrev pub is_current : RouteController → Resolution → Bool
is_current c r = r.seq == c.resolve_seq && c.state.target_match_id == r.match_id

-- What the match controller is asked to resume: the lobby only where its code is there.
abbrev pub to_resume : Assignment → Assignment
to_resume a =
    let coded = truthy (or_else a.source_lobby_invite_code "") in
    record a {
      source_lobby_id = if coded then a.source_lobby_id else none;
      source_lobby_invite_code = if coded then a.source_lobby_invite_code else none;
    }

-- The state after an answer that needs no connection.
unfoldable pub answered : MatchRouteState → MatchSessionResponse → MatchRouteState
answered s (MatchSessionResponse.history id snapshot) = record s {
  status = history;
  history_snapshot = snapshot;
  replacement = some (MatchSessionResponse.history id snapshot);
}
answered s (MatchSessionResponse.replaced id by) = record s {
  status = replaced;
  replacement = some (MatchSessionResponse.replaced id by);
  history_snapshot = none;
}
answered s (live_auth_required id) = record s {
  status = forbidden;
  history_snapshot = none;
  replacement = none;
}
answered s (MatchSessionResponse.forbidden id) = record s {
  status = forbidden;
  history_snapshot = none;
  replacement = none;
}
answered s _ = record s { status = missing; history_snapshot = none; replacement = none }

unfoldable pub resolve_with : RouteController → Resolution → MatchSessionResponse → RouteController
unfolding finish answered
resolve_with c r (live_connectable a) =
    waits (record c { log = resumes (to_resume a) ∷ c.log }) r resuming
resolve_with c r response = finish (record c { state = answered c.state response }) r

-- `handleResolvedMatch` up to its await, and the end of the resolution where there is none.
unfoldable pub handle_resolved_match :
    RouteController → Resolution → MatchSessionResponse → RouteController
unfolding resolve_with finish
handle_resolved_match c r response =
    if is_current c r then resolve_with c r response else finish c r

-- `patchState({ status })` under the test that the resolution is still the current one.
abbrev pub set_if_current : RouteController → Resolution → Route.MatchRouteStatus → RouteController
set_if_current c r status = if is_current c r then set_status c status else c

-- The session that is at hand decides how a resolution that needs one goes on.
unfoldable pub needs_auth :
    RouteController → Resolution → Option AuthSessionSnapshot → RouteController
needs_auth c r none =
    waits (set_status (record c { log = bootstraps r.match_id ∷ c.log }) bootstrapping_auth) r
      bootstrapping
needs_auth c r (some session) = waits (record c { log = refreshes_session ∷ c.log }) r refreshing

unfoldable pub public_resolved :
    RouteController
    → Resolution
    → Option AuthSessionSnapshot
    → MatchSessionResponse
    → RouteController
unfolding needs_auth handle_resolved_match
public_resolved c r session (live_auth_required id) = needs_auth c r session
public_resolved c r session response = handle_resolved_match c r response

unfoldable pub bootstrapped :
    RouteController → Resolution → Option (BootstrapAuth × MatchSessionResponse) → RouteController
unfolding finish handle_resolved_match build_session_snapshot
bootstrapped c r none = finish (set_if_current c r forbidden) r
bootstrapped c r (some (auth, response)) =
    handle_resolved_match
      (record c {
        log = applies_session (build_session_snapshot auth) (or_else auth.is_guest false) ∷ c.log;
      })
      r response

unfoldable pub refreshed :
    RouteController → Resolution → Option AuthSessionSnapshot → RouteController
unfolding finish
refreshed c r none = finish (set_if_current c r forbidden) r
refreshed c r (some session) =
    waits
      (set_status (record c { log = fetches r.match_id (some session.access_token) ∷ c.log })
        resolving)
      r fetching_private

unfoldable pub resumed : RouteController → Resolution → Bool → RouteController
unfolding finish
resumed c r ok = finish (set_if_current c r (if ok then awaiting_first_snapshot else missing)) r

-- A request that failed, or was aborted.
unfoldable pub rejected : RouteController → Resolution → Bool → RouteController
unfolding finish
rejected c r is_abort = finish (if is_abort then c else set_if_current c r missing) r

-- The end of an await, with what it answers.
pub data Answer : Type 0 where
  public_answer : Option AuthSessionSnapshot → MatchSessionResponse → Answer
  bootstrap_answer : Option (BootstrapAuth × MatchSessionResponse) → Answer
  session_answer : Option AuthSessionSnapshot → Answer
  private_answer : MatchSessionResponse → Answer
  resume_answer : Bool → Answer
  fails : Bool → Answer

-- An answer reaches a resolution only at the await where it waits.
unfoldable pub continue : RouteController → Resolution → Stage → Answer → RouteController
unfolding public_resolved bootstrapped refreshed handle_resolved_match resumed rejected
continue c r fetching_public (public_answer session response) = public_resolved c r session response
continue c r bootstrapping (bootstrap_answer auth) = bootstrapped c r auth
continue c r refreshing (session_answer session) = refreshed c r session
continue c r fetching_private (private_answer response) = handle_resolved_match c r response
continue c r resuming (resume_answer ok) = resumed c r ok
continue c r _ (fails is_abort) = rejected c r is_abort
continue c r _ _ = c

pub data RouteEvent : Type 0 where
  starts destroys resets : RouteEvent
  match_changes : MatchState → RouteEvent
  sets_target : Option String → Option AuthSessionSnapshot → RouteEvent
  answers : ℕ → Answer → RouteEvent

unfoldable pub continue_found : RouteController → Option Resolution → Answer → RouteController
unfolding continue
continue_found c none a = c
continue_found c (some r) a = continue c r r.stage a

unfoldable pub step : RouteController → RouteEvent → RouteController
unfolding continue_found
step c starts = Route.start c
step c destroys = Route.destroy c
step c resets = Route.reset c
step c (match_changes m) = match_changed c m
step c (sets_target id session) = set_target_match c id session
step c (answers i a) = continue_found c (find_resolution i c.resolutions) a
