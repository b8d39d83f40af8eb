-- ===== src/Route/Stale.antt =====
-- features/matchmaking/controllers/match-route-controller.ts: what the answer to a resolution that
-- is no longer the latest does.
use geoduels.Base.{
  sym, ◌∙◌, ap, subst, truthy, trim, eq_iff, ℕ, ◌≡◌, ◌≢◌, refl, String, true, false, Option, none,
  some, List, [], ◌∷◌, arith, ◌==◌, nat_eq, string_eq, Bool-cases, inl, inr,
}
use geoduels.Session.{AuthSessionSnapshot}
use geoduels.MatchSession.{MatchSessionResponse, live_auth_required}
use geoduels.Match.State.{MatchState}
use geoduels.Route
use geoduels.Route.{
  RouteController, MatchRouteState, Resolution, Stage, fetching_public, bootstrapping, refreshing,
  fetching_private, resuming, bootstrapping_auth, resolving, match_changed, set_target_match,
}
use geoduels.Route.Resolve.{
  Answer, public_answer, session_answer, fails, answers, match_changes, sets_target, step, continue,
  continue_found, find_resolution, finish, handle_resolved_match, rejected, resumed, refreshed,
  bootstrapped, public_resolved, needs_auth, is_current,
}

-- The status that an answer leaves to a resolution which is no longer the latest one: only the
-- request for a session, and the session, still change it.
abbrev pub late_status : Stage → Answer → Route.MatchRouteStatus → Route.MatchRouteStatus
late_status fetching_public (public_answer none (live_auth_required id)) s = bootstrapping_auth
late_status refreshing (session_answer (some session)) s = resolving
late_status stage a s = s

late_current :
    (c : RouteController) (r : Resolution) → r.seq ≢ c.resolve_seq → is_current c r ≡ false
late_current c r late = grind arith

late_handled :
    (c : RouteController) (r : Resolution) (response : MatchSessionResponse)
    → is_current c r ≡ false
    → (handle_resolved_match c r response).state ≡ c.state
unfolding handle_resolved_match finish
late_handled c r response late = rw late refl

late_continue :
    (c : RouteController) (r : Resolution) (a : Answer) (stage : Stage)
    → is_current c r ≡ false
    → (continue c r stage a).state
      ≡ record (c.state) { status = late_status stage a c.state.status }
unfolding continue rejected resumed refreshed bootstrapped public_resolved needs_auth finish
    handle_resolved_match
late_continue c r a stage late = ground arith

pub found-seq :
    (i : ℕ) (rs : List Resolution) (r : Resolution) → find_resolution i rs ≡ some r → r.seq ≡ i
found-seq i [] r h = grind arith
found-seq i (x ∷ xs) r h = elim (Bool-cases (x.seq == i)) [
  | inl here ↦ grind arith
  | inr there ↦ found-seq i xs r (grind arith)
]

-- An answer to a resolution that is not the latest leaves the target, the history and the
-- replacement alone, and the status too, except that a public answer which asks for a session,
-- with none at hand, sets it to bootstrapping_auth, and a refreshed session sets it to resolving.
pub late_answer_lem :
    (c : RouteController) (i : ℕ) (r : Resolution) (a : Answer)
    → find_resolution i c.resolutions ≡ some r
    → i ≢ c.resolve_seq
    → (step c (answers i a)).state
      ≡ record (c.state) { status = late_status r.stage a c.state.status }
unfolding step continue_found
late_answer_lem c i r a found late = rw found (
    late_continue c r a r.stage
      (late_current c r (λ e. late (sym (found-seq i c.resolutions r found) ∙ e))))

session_waits :
    (c : RouteController) (i : ℕ) (r : Resolution) (s : AuthSessionSnapshot)
    → find_resolution i c.resolutions ≡ some r
    → r.stage ≡ refreshing
    → let d = step c (answers i (session_answer (some s))) in
      (find_resolution i d.resolutions ≡ some (record r { stage = fetching_private }))
      × (d.resolve_seq ≡ c.resolve_seq)
unfolding step continue_found continue refreshed
session_waits c i r s found stage =
    rw
      (
        found,
        stage,
        subst (λ n. (n == i) ≡ true) (sym (found-seq i c.resolutions r found)) (ground arith),
      )
      (refl, refl)

resolving_unwatched :
    (d : RouteController) (m : MatchState)
    → d.state.status ≡ resolving
    → step d (match_changes m) ≡ d
unfolding step match_changed
resolving_unwatched d m h = ground arith

resolving_retargeted :
    (d : RouteController) (id : String) (session : Option AuthSessionSnapshot)
    → d.state.status ≡ resolving
    → d.state.target_match_id ≡ id
    → truthy (trim id) ≡ true
    → trim id ≡ id
    → step d (sets_target (some id) session) ≡ d
unfolding step set_target_match
resolving_retargeted d id session h same named trimmed =
    rw (named, trimmed, (eq_iff d.state.target_match_id id).1 same) (ground arith)

-- When a resolution that is not the latest gets its refreshed session and then its aborted request
-- fails, the status is resolving, whatever the page showed, and neither a change of the match nor
-- setting the same target again, where it is a text that trim leaves alone, changes that.
pub late_session_sticks :
    (c : RouteController) (i : ℕ) (r : Resolution) (session : Option AuthSessionSnapshot)
    (s : AuthSessionSnapshot) (m : MatchState)
    → find_resolution i c.resolutions ≡ some r
    → r.stage ≡ refreshing
    → i ≢ c.resolve_seq
    → truthy (trim c.state.target_match_id) ≡ true
    → trim c.state.target_match_id ≡ c.state.target_match_id
    → let d = step (step c (answers i (session_answer (some s)))) (answers i (fails true)) in
      (d.state ≡ record (c.state) { status = resolving })
      × (step d (match_changes m) ≡ d)
      × (step d (sets_target (some c.state.target_match_id) session) ≡ d)
late_session_sticks c i r session s m found stage late named trimmed =
    let d = step c (answers i (session_answer (some s))) in
    let (again, same_seq) = session_waits c i r s found stage in
    let first : d.state ≡ record (c.state) { status = resolving } =
      late_answer_lem c i r (session_answer (some s)) found late
      ∙ ap
          (λ stage. record (c.state) {
            status = late_status stage (session_answer (some s)) c.state.status;
          })
          stage in
    let last : (step d (answers i (fails true))).state ≡ record (c.state) { status = resolving } =
      late_answer_lem d i (record r { stage = fetching_private }) (fails true) again
        (λ e. late (e ∙ same_seq))
      ∙ first in
    (
      last,
      resolving_unwatched (step d (answers i (fails true))) m
          (ap (λ (x : MatchRouteState). x.status) last),
      resolving_retargeted (step d (answers i (fails true))) c.state.target_match_id session
          (ap (λ (x : MatchRouteState). x.status) last)
          (ap (λ (x : MatchRouteState). x.target_match_id) last) named trimmed,
    )
