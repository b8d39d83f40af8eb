-- ===== src/Match/RecoverOnce.antt =====
-- The recovery of a `MatchController`: at most one is alive at a time, and one that has ended
-- leaves the way free for the next.
use geoduels.Base.{
  ℕ, ◌≡◌, refl, sym, subst, ◌≢◌, ap, Bool, true, false, Option, none, some, List, [], ◌∷◌, arith,
  if◌then◌else◌, ◌==◌, nat_eq, string_eq, is_some, is_value, contains,
}
use geoduels.Matchmaking.{
  MatchmakingAction, recover_started, recover_resolved, recover_failed, matchmaking_reducer,
}
use geoduels.Matchmaking.Recovery.{track}
use geoduels.Session.{AuthSessionSnapshot}
use geoduels.Match.State.{MatchController, Recovery, Stage, dispatch_matchmaking}
use geoduels.Match.Recover.{find_recovery, remove_recovery, finish_recovery, start_recover}
use geoduels.Match.Tracking.{Tracking, tracking, tracking-dispatch_matchmaking, forget}

abbrev pub IsPending : ℕ → Tracking → Type 0
IsPending i t = is_some (find_recovery i t.pending) ≡ true

-- One is under way exactly when there is a current controller; the current and the active one have
-- not ended; every other one that has not ended was aborted.
pub record IsTracked (t : Tracking) : Type 0 where
  pub flight : t.in_flight ≡ is_some t.current
  pub current_pending : (i : ℕ) → t.current ≡ some i → IsPending i t
  pub active_pending : (i : ℕ) → t.active ≡ some i → IsPending i t
  pub others_aborted : (i : ℕ) → IsPending i t → t.current ≢ some i → contains i t.aborted ≡ true

find_recovery-remove_recovery :
    (i j : ℕ) (rs : List Recovery)
    → is_some (find_recovery j (remove_recovery i rs))
      ≡ (if i == j then false else is_some (find_recovery j rs))
find_recovery-remove_recovery i j [] = ground arith
find_recovery-remove_recovery i j (r ∷ rs) = ground (arith, find_recovery-remove_recovery i j rs)

-- What a recovery leaves when it has answered its request and ended.
abbrev pub finish : ℕ → Tracking → Tracking
finish i t = record t {
  active = if is_value t.active i then none else t.active;
  pending = remove_recovery i t.pending;
  in_flight = if is_value t.current i then false else t.in_flight;
  current = if is_value t.current i then none else t.current;
}

finish-IsTracked : (i : ℕ) (t : Tracking) → IsTracked t → IsTracked (finish i t)
finish-IsTracked i t v = record {
  flight = ground (arith, v.flight);
  current_pending =
      λ j h. ground (arith, v.current_pending j, find_recovery-remove_recovery i j t.pending);
  active_pending =
      λ j h. ground (arith, v.active_pending j, find_recovery-remove_recovery i j t.pending);
  others_aborted =
      λ j p h. ground (arith, v.others_aborted j, find_recovery-remove_recovery i j t.pending);
}

pub forget-IsTracked : (t : Tracking) → IsTracked t → IsTracked (forget t)
forget-IsTracked t v = record {
  flight = refl;
  current_pending = λ j h. cc;
  active_pending = λ j h. cc;
  others_aborted = λ j p h. ground (arith, v.others_aborted j);
}

pub start_recover-IsTracked :
    (m : MatchController) (session : AuthSessionSnapshot)
    → IsTracked (tracking m)
    → IsTracked (tracking (start_recover m session))
unfolding start_recover dispatch_matchmaking matchmaking_reducer
start_recover-IsTracked m session v = record {
  flight = ground (arith, v.flight);
  current_pending = λ j h. ground (arith, v.current_pending j);
  active_pending = λ j h. ground (arith, v.active_pending j);
  others_aborted = λ j p h. ground (arith, v.others_aborted j, v.flight);
}

pub request_id-find_recovery :
    (i : ℕ) (rs : List Recovery) {r : Recovery} → find_recovery i rs ≡ some r → r.request_id ≡ i
request_id-find_recovery i [] h = cc
request_id-find_recovery i (s ∷ rs) {r} h = ground (arith, request_id-find_recovery i rs {r = r})

-- A recovery that goes on from one `await` to the next.
pub wait-IsTracked :
    (i : ℕ) (r : Recovery) (s : Stage) (t : Tracking)
    → find_recovery i t.pending ≡ some r
    → IsTracked t
    → IsTracked
        (record t { pending = record r { stage = s } ∷ remove_recovery r.request_id t.pending })
wait-IsTracked i r s t f v = record {
  flight = v.flight;
  current_pending = λ j h.
      ground (arith, v.current_pending j, find_recovery-remove_recovery r.request_id j t.pending);
  active_pending = λ j h.
      ground (arith, v.active_pending j, find_recovery-remove_recovery r.request_id j t.pending);
  others_aborted = λ j p h. ground (
    arith,
    v.others_aborted j,
    request_id-find_recovery i t.pending f,
    find_recovery-remove_recovery r.request_id j t.pending,
  );
}

pub finish_recovery-IsTracked :
    (m : MatchController) (i : ℕ)
    → is_value m.state.matchmaking.active_recover_request_id i ≡ false
    → IsTracked (tracking m)
    → IsTracked (tracking (finish_recovery m i))
unfolding finish_recovery
finish_recovery-IsTracked m i h v = ground (arith, finish-IsTracked i (tracking m) v)

abbrev pub is_start : MatchmakingAction → Bool
is_start (recover_started i) = true
is_start _ = false

track-eq-some :
    (o : Option ℕ) (a : MatchmakingAction) (i : ℕ)
    → is_start a ≡ false
    → track o a ≡ some i
    → o ≡ some i
track-eq-some o (recover_started j) i s h = cc
track-eq-some o a i s h = ground arith

active-IsTracked :
    (t : Tracking) (o : Option ℕ)
    → ((i : ℕ) → o ≡ some i → t.active ≡ some i)
    → IsTracked t
    → IsTracked (record t { active = o })
active-IsTracked t o sub v = record {
  flight = v.flight;
  current_pending = v.current_pending;
  active_pending = λ i h. v.active_pending i (sub i h);
  others_aborted = v.others_aborted;
}

-- No action but the start of a recovery makes the account wrong.
pub dispatch_matchmaking-IsTracked :
    (m : MatchController) (a : MatchmakingAction)
    → is_start a ≡ false
    → IsTracked (tracking m)
    → IsTracked (tracking (dispatch_matchmaking m a))
dispatch_matchmaking-IsTracked m a s v = subst IsTracked (sym (tracking-dispatch_matchmaking m a)) (
    active-IsTracked (tracking m) (track m.state.matchmaking.active_recover_request_id a)
      (λ i h. track-eq-some m.state.matchmaking.active_recover_request_id a i s h) v)

-- The tracked request after its own answer.
abbrev pub is_answer : ℕ → MatchmakingAction → Bool
is_answer i (recover_resolved j v outcome has_snapshot) = i == j
is_answer i (recover_failed j) = i == j
is_answer i _ = false

pub active-dispatch_matchmaking :
    (m : MatchController) (i : ℕ) (a : MatchmakingAction)
    → is_answer i a ≡ true
    → is_value (dispatch_matchmaking m a).state.matchmaking.active_recover_request_id i ≡ false
active-dispatch_matchmaking m i a h =
    rw (ap (λ (t : Tracking). t.active) (tracking-dispatch_matchmaking m a)) (ground arith)

pub answer-IsTracked :
    (m : MatchController) (i : ℕ) (a : MatchmakingAction)
    → is_answer i a ≡ true
    → is_start a ≡ false
    → IsTracked (tracking m)
    → IsTracked (tracking (finish_recovery (dispatch_matchmaking m a) i))
answer-IsTracked m i a h s v =
    finish_recovery-IsTracked _ i (active-dispatch_matchmaking m i a h)
      (dispatch_matchmaking-IsTracked m a s v)
