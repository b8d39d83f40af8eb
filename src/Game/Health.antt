-- ===== src/Game/Health.antt =====
-- features/game/controllers/game-controller.ts: the health that is shown, and its animation after a
-- round.
use geoduels.Base.{
  ℕ, min, max, String, Bool, true, false, Option, none, some, List, [], ◌∷◌, if◌then◌else◌, ◌==◌,
  string_eq, nat_eq, not, ◌&&◌, ◌||◌, or_else, or_text,
}
use geoduels.Config.{RuntimeConfig}
use geoduels.Snapshot.{
  Snapshot, SnapshotPlayer, PlayerResult, RoundResult, Mode, Phase, is_singleplayer, lookup,
}
use geoduels.Game.State.{GameController}

abbrev pub is_free_for_all : Option Mode → Bool
is_free_for_all (some Mode.free_for_all) = true
is_free_for_all _ = false

abbrev pub is_team_duel : Option Mode → Bool
is_team_duel (some Mode.team_duel) = true
is_team_duel _ = false

abbrev pub is_duel : Option Mode → Bool
is_duel (some Mode.duel) = true
is_duel _ = false

abbrev pub is_result_phase : Phase → Bool
is_result_phase Phase.round_result = true
is_result_phase _ = false

-- `snapshot.players[id]?.totalScore || 0` and `snapshot.players[id]?.hp`.
abbrev pub total_score : Snapshot → String → ℕ
total_score s id = elim (lookup id s.players) [ none ↦ 0 | some p ↦ or_else p.total_score 0 ]

abbrev pub hp_of : Snapshot → String → Option ℕ
hp_of s id = elim (lookup id s.players) [ none ↦ none | some p ↦ some p.hp ]

abbrev pub hps : List (String × SnapshotPlayer) → List (String × ℕ)
hps [] = []
hps ((id, p) ∷ ps) = (id, p.hp) ∷ hps ps

-- `Math.max(after, Math.min(maxHP, hp))`.
abbrev pub clamp : RuntimeConfig → ℕ → ℕ → ℕ
clamp config after hp = max after (min config.max_hp hp)

-- `prevSnapshot.players?.[id]?.hp` where the last snapshot is of the same match.
abbrev prev_hp : Option Snapshot → Snapshot → String → Option ℕ
prev_hp none s id = none
prev_hp (some prev) s id = if prev.match_id == s.match_id then hp_of prev id else none

unfoldable pub get_animated_start_hp :
    RuntimeConfig → GameController → Snapshot → String → ℕ → ℕ → ℕ
get_animated_start_hp config g s id after now = elim (prev_hp g.prev_snapshot s id) [
  | some hp ↦ clamp config after hp
  | none ↦ clamp config after (or_else (lookup id g.state.display_hp) now)
]

-- The health that each player of a result starts its animation with.
unfoldable pub start_hps :
    RuntimeConfig → GameController → Snapshot → List (String × PlayerResult) → List (String × ℕ)
unfolding get_animated_start_hp
start_hps config g s [] = []
start_hps config g s ((id, r) ∷ rs) =
    (id, get_animated_start_hp config g s id (or_else r.hp_after_round 0) (or_else (hp_of s id) 0))
    ∷ start_hps config g s rs

abbrev pub shows_hp : GameController → List (String × ℕ) → ℕ → GameController
shows_hp g display seq = record g {
  state = record (g.state) { display_hp = display };
  prev_seq = seq;
}

-- `lastRoundResult` where its health is animated: a new snapshot after a round.
abbrev pub result_tick : GameController → Snapshot → Option RoundResult
result_tick g s =
    if (is_result_phase s.phase || s.state == "ended") && not (s.event_sequence == g.prev_seq)
    then s.last_round_result
    else none

-- The last part of `syncDisplayHP`: at once, or from the old health by a timer.
unfoldable pub show_health :
    RuntimeConfig → GameController → Snapshot → Option RoundResult → GameController
unfolding start_hps
show_health config g s none = shows_hp g (hps s.players) s.event_sequence
show_health config g s (some r) = record g {
  state = record (g.state) { display_hp = start_hps config g s r.players };
  hp_transition_timer = some (hps s.players);
  prev_seq = s.event_sequence;
}

unfoldable pub sync_display_hp :
    RuntimeConfig → GameController → Option Snapshot → String → GameController
unfolding show_health
sync_display_hp config g none user = g
sync_display_hp config g (some s) user =
    if is_singleplayer s.mode || is_free_for_all s.mode
    then shows_hp g ((user, total_score s user) ∷ []) s.event_sequence
    else show_health config g s (result_tick g s)

-- The timer of 90 milliseconds.
unfoldable pub hp_transition : GameController → GameController
hp_transition g = elim g.hp_transition_timer [
  | none ↦ g
  | some display ↦ record g {
    state = record (g.state) { display_hp = display };
    hp_transition_timer = none;
  }
]

-- `players[id]?.teamId || fallback`.
abbrev pub team_of : Snapshot → String → String → String
team_of s id fallback = elim (lookup id s.players) [
  | none ↦ fallback
  | some p ↦ or_text (or_else p.team_id "") fallback
]

-- The first player of another team, and the first other player; empty where there is none.
abbrev pub other_team_id : Snapshot → String → List (String × SnapshotPlayer) → String
other_team_id s team [] = ""
other_team_id s team ((id, p) ∷ ps) =
    let rest = other_team_id s team ps in
    if not (or_text (or_else p.team_id "") "a" == team) then id else rest

abbrev pub other_id : String → List (String × SnapshotPlayer) → String
other_id user [] = ""
other_id user ((id, p) ∷ ps) = let rest = other_id user ps in if not (id == user) then id else rest
