-- ===== src/Route/OneLive.antt =====
-- features/matchmaking/controllers/match-route-controller.ts: which resolutions can still be
-- answered, over every run of the controller.
use geoduels.Base.{
  ℕ, suc, ◌≡◌, ◌≢◌, refl, sym, ◌∙◌, ap, subst, String, true, false, Option, none, some, List, [],
  ◌∷◌, arith, if◌then◌else◌, ◌==◌, nat_eq, string_eq, Bool-cases, Option-cases, inl, inr, ◌⊎◌,
  is_value, contains, truthy, trim, or_else, not, ◌&&◌,
}
use geoduels.Match.State.{MatchState}
use geoduels.MatchSession.{MatchSessionResponse, live_connectable, live_auth_required}
use geoduels.Route
use geoduels.Route.{
  is_missing, RouteController, MatchRouteState, Resolution, Stage, fetching_public, bootstrapping,
  refreshing, fetching_private, resuming, new_controller, initial_state, clear_pending_work,
  resolve, patch_state, set_target_match, match_changed,
}
use geoduels.Route.Stale.{found-seq}
use geoduels.Route.Resolve.{
  Answer, public_answer, bootstrap_answer, session_answer, private_answer, resume_answer, fails,
  RouteEvent, starts, destroys, resets, match_changes, sets_target, answers, step, continue,
  continue_found, find_resolution, remove_resolution, finish, handle_resolved_match, resolve_with,
  rejected, resumed, refreshed, bootstrapped, public_resolved, needs_auth, is_current, answered,
}

-- What decides which resolutions are alive.
pub record Account : Type 0 where
  pub request : Option ℕ
  pub resolve_seq : ℕ
  pub target : String
  pub resolutions : List Resolution
  pub aborted : List ℕ

abbrev pub account : RouteController → Account
account c = record {
  request = c.request;
  resolve_seq = c.resolve_seq;
  target = c.state.target_match_id;
  resolutions = c.resolutions;
  aborted = c.aborted;
}

-- The request is of the latest resolution and for the target; every other resolution that waits was
-- aborted.
pub record IsSingle (c : Account) : Type 0 where
  pub latest : (i : ℕ) → c.request ≡ some i → i ≡ c.resolve_seq
  pub targeted :
      (i : ℕ) (r : Resolution)
      → find_resolution i c.resolutions ≡ some r
      → c.request ≡ some i
      → c.target ≡ r.match_id
  pub others_aborted :
      (i : ℕ) (r : Resolution)
      → find_resolution i c.resolutions ≡ some r
      → c.request ≢ some i
      → contains i c.aborted ≡ true

find_resolution-remove_resolution :
    (i j : ℕ) (rs : List Resolution)
    → find_resolution j (remove_resolution i rs) ≡ (if i == j then none else find_resolution j rs)
find_resolution-remove_resolution i j [] = ground arith
find_resolution-remove_resolution i j (r ∷ rs) =
    ground (arith, find_resolution-remove_resolution i j rs)

-- The three ways in which an answer changes the account.
abbrev pub waited : Account → Resolution → Stage → Account
waited c r stage = record c {
  resolutions = record r { stage = stage } ∷ remove_resolution r.seq c.resolutions;
}

abbrev pub finished : Account → Resolution → Account
finished c r = record c {
  request = if is_value c.request r.seq then none else c.request;
  resolutions = remove_resolution r.seq c.resolutions;
}

abbrev pub cleared : Account → Account
cleared c = record c {
  request = none;
  aborted = elim c.request [ none ↦ c.aborted | some i ↦ i ∷ c.aborted ];
}

waited-IsSingle :
    (c : Account) (r : Resolution) (stage : Stage)
    → find_resolution r.seq c.resolutions ≡ some r
    → IsSingle c
    → IsSingle (waited c r stage)
waited-IsSingle c r stage found v = record {
  latest = v.latest;
  targeted = λ i x h q. grind (
    arith,
    v.targeted i r,
    v.targeted i x,
    find_resolution-remove_resolution r.seq i c.resolutions,
  );
  others_aborted = λ i x h q. grind (
    arith,
    v.others_aborted i r,
    v.others_aborted i x,
    find_resolution-remove_resolution r.seq i c.resolutions,
  );
}

finished-IsSingle : (c : Account) (r : Resolution) → IsSingle c → IsSingle (finished c r)
finished-IsSingle c r v = record {
  latest = λ i q. grind (arith, v.latest i);
  targeted = λ i x h q.
      grind (arith, v.targeted i x, find_resolution-remove_resolution r.seq i c.resolutions);
  others_aborted = λ i x h q.
      grind (arith, v.others_aborted i x, find_resolution-remove_resolution r.seq i c.resolutions);
}

cleared-IsSingle : (c : Account) → IsSingle c → IsSingle (cleared c)
cleared-IsSingle c v = record {
  latest = λ i q. grind arith;
  targeted = λ i x h q. grind arith;
  others_aborted = λ i x h q. grind (arith, v.others_aborted i x);
}

resolved-IsSingle :
    (c : Account) (id : String)
    → IsSingle (cleared c)
    → IsSingle (record (cleared c) {
      request = some (suc c.resolve_seq);
      resolve_seq = suc c.resolve_seq;
      target = id;
      resolutions =
          record { seq = suc c.resolve_seq; match_id = id; stage = fetching_public }
          ∷ c.resolutions;
    })
resolved-IsSingle c id v = record {
  latest = λ i q. grind arith;
  targeted = λ i x h q. grind arith;
  others_aborted = λ i x h q. v.others_aborted i x (grind arith) (λ e. grind arith);
}

-- What an answer does to the account of its resolution.
abbrev pub IsMove : Account → Resolution → Account → Type 0
IsMove c r d = (d ≡ c) ⊎ (d ≡ finished c r) ⊎ ((stage : Stage) × (d ≡ waited c r stage))

handle_resolved_match-IsMove :
    (c : RouteController) (r : Resolution) (response : MatchSessionResponse)
    → IsMove (account c) r (account (handle_resolved_match c r response))
unfolding handle_resolved_match resolve_with finish answered
handle_resolved_match-IsMove c r (live_connectable a) = elim (Bool-cases (is_current c r)) [
  | inl now ↦ inr (inr (resuming, ground arith))
  | inr late ↦ inr (inl (ground arith))
]
handle_resolved_match-IsMove c r response = inr (inl (ground arith))

continue-IsMove :
    (c : RouteController) (r : Resolution) (stage : Stage) (a : Answer)
    → IsMove (account c) r (account (continue c r stage a))
unfolding continue public_resolved needs_auth bootstrapped refreshed resumed rejected finish
continue-IsMove c r fetching_public (public_answer none (live_auth_required id)) =
    inr (inr (bootstrapping, refl))
continue-IsMove c r fetching_public (public_answer (some s) (live_auth_required id)) =
    inr (inr (refreshing, refl))
continue-IsMove c r fetching_public (public_answer session response) =
    handle_resolved_match-IsMove c r response
continue-IsMove c r bootstrapping (bootstrap_answer none) = inr (inl (ground arith))
continue-IsMove c r bootstrapping (bootstrap_answer (some (auth, response))) =
    handle_resolved_match-IsMove _ r response
continue-IsMove c r refreshing (session_answer none) = inr (inl (ground arith))
continue-IsMove c r refreshing (session_answer (some s)) = inr (inr (fetching_private, refl))
continue-IsMove c r fetching_private (private_answer response) =
    handle_resolved_match-IsMove c r response
continue-IsMove c r resuming (resume_answer ok) = inr (inl (ground arith))
continue-IsMove c r stage (fails is_abort) = inr (inl (ground arith))
continue-IsMove c r stage a = inl refl

IsMove-IsSingle :
    (c : Account) (r : Resolution) (d : Account)
    → IsMove c r d
    → find_resolution r.seq c.resolutions ≡ some r
    → IsSingle c
    → IsSingle d
IsMove-IsSingle c r d (inl same) found v = subst IsSingle (sym same) v
IsMove-IsSingle c r d (inr (inl done)) found v = subst IsSingle (sym done) (finished-IsSingle c r v)
IsMove-IsSingle c r d (inr (inr (stage, on))) found v =
    subst IsSingle (sym on) (waited-IsSingle c r stage found v)

continue_found-IsSingle :
    (c : RouteController) (i : ℕ) (a : Answer)
    → IsSingle (account c)
    → IsSingle (account (continue_found c (find_resolution i c.resolutions) a))
unfolding continue_found
continue_found-IsSingle c i a v = elim (Option-cases (find_resolution i c.resolutions)) [
  | inl gone ↦ rw gone v
  | inr (r, found) ↦ rw found (
      IsMove-IsSingle (account c) r (account (continue c r r.stage a))
        (continue-IsMove c r r.stage a)
        (ap (λ n. find_resolution n c.resolutions) (found-seq i c.resolutions r found) ∙ found) v)
]

stopped-IsSingle :
    (c : Account) (id : String)
    → IsSingle (cleared c)
    → IsSingle (record (cleared c) { target = id })
stopped-IsSingle c id v = record {
  latest = v.latest;
  targeted = λ i r h q. grind arith;
  others_aborted = v.others_aborted;
}

account-start : (c : RouteController) → account c ≡ account (Route.start c)
unfolding Route.start
account-start c = ground arith

account-match_changed :
    (c : RouteController) (m : MatchState) → account c ≡ account (match_changed c m)
unfolding match_changed
account-match_changed c m = ground arith

step-IsSingle :
    (c : RouteController) (e : RouteEvent) → IsSingle (account c) → IsSingle (account (step c e))
unfolding step Route.destroy Route.reset set_target_match resolve clear_pending_work patch_state
    initial_state
step-IsSingle c starts v = subst IsSingle (account-start c) v
step-IsSingle c destroys v = cleared-IsSingle (account c) v
step-IsSingle c resets v = stopped-IsSingle (account c) "" (cleared-IsSingle (account c) v)
step-IsSingle c (match_changes m) v = subst IsSingle (account-match_changed c m) v
step-IsSingle c (sets_target id session) v =
    let next = trim (or_else id "") in
    let empty = cleared-IsSingle (account c) v in
    elim (Bool-cases (not (truthy next))) [
      | inl nothing ↦ rw nothing (stopped-IsSingle (account c) "" empty)
      | inr named ↦
          rw named
            (elim (Bool-cases
              (c.state.target_match_id == next && not (is_missing c.state.status))) [
                | inl same ↦ rw same v
                | inr other ↦ rw other (resolved-IsSingle (account c) next empty)
              ])
    ]
step-IsSingle c (answers i a) v = continue_found-IsSingle c i a v

unfoldable pub run : RouteController → List RouteEvent → RouteController
run c [] = c
run c (e ∷ events) = run (step c e) events

run-IsSingle :
    (events : List RouteEvent) (c : RouteController)
    → IsSingle (account c)
    → IsSingle (account (run c events))
unfolding run
run-IsSingle [] c v = v
run-IsSingle (e ∷ events) c v = run-IsSingle events (step c e) (step-IsSingle c e v)

new_controller-IsSingle : IsSingle (account new_controller)
unfolding new_controller initial_state
new_controller-IsSingle = record {
  latest = λ i q. grind arith;
  targeted = λ i r h q. grind arith;
  others_aborted = λ i r h q. grind arith;
}

live_is_current :
    (c : Account) (i : ℕ) (r : Resolution)
    → find_resolution i c.resolutions ≡ some r
    → contains i c.aborted ≡ false
    → IsSingle c
    → (i ≡ c.resolve_seq) × (c.target ≡ r.match_id)
live_is_current c i r found alive v = elim (Option-cases c.request) [
  | inl q ↦ grind (arith, v.others_aborted i r)
  | inr (j, q) ↦ elim (Bool-cases (j == i)) [
    | inl here ↦ (grind (arith, v.latest i), v.targeted i r found (grind arith))
    | inr there ↦ grind (arith, v.others_aborted i r)
  ]
]

-- After any run of events of a match route controller, a resolution that waits and was not aborted
-- is the latest one and is for the match that the page is set to.
pub live_resolution_is_current :
    (events : List RouteEvent) (i : ℕ) (r : Resolution)
    → find_resolution i (run new_controller events).resolutions ≡ some r
    → contains i (run new_controller events).aborted ≡ false
    → (i ≡ (run new_controller events).resolve_seq)
      × ((run new_controller events).state.target_match_id ≡ r.match_id)
live_resolution_is_current events i r found alive =
    let v = run-IsSingle events new_controller new_controller-IsSingle in
    live_is_current (account (run new_controller events)) i r found alive v
