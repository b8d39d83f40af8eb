-- ===== src/Snapshot.antt =====
-- components/ui/types.ts: the match snapshot that the server sends, with the fields that the
-- modelled code reads. A record of players or results is an association list in its own order. A
-- coordinate is never computed with: the number stands for its bits.
use geoduels.Base.{
  ℕ, String, Bool, true, false, List, Option, none, some, ◌==◌, string_eq, if◌then◌else◌, [], ◌∷◌,
}

pub record LatLng : Type 0 where
  pub lat : ℕ
  pub lng : ℕ

-- `RoundPlayerResult` and `RoundTeamResult`, in what they share.
pub record PlayerResult : Type 0 where
  pub score : ℕ
  pub damage_taken : Option ℕ
  pub hp_after_round : Option ℕ

pub record RoundResult : Type 0 where
  pub round_id : String
  pub round_number : ℕ
  pub players : List (String × PlayerResult)
  pub teams : List (String × PlayerResult)

pub record SnapshotPlayer : Type 0 where
  pub user_id : String
  pub display_name : String
  pub mmr : ℕ
  pub avatar_url : Option String
  pub is_guest : Option Bool
  pub is_admin : Option Bool
  pub team_id : Option String
  pub hp : ℕ
  pub total_score : Option ℕ
  pub finalized : Bool
  pub disconnected : Bool

-- An entry of `teams`, as far as it is read.
pub record SnapshotTeam : Type 0 where
  pub hp : Option ℕ

-- A change of a rating is never computed with: the number stands for its bits.
pub record RatingDeltaPreview : Type 0 where
  pub win : ℕ
  pub lose : ℕ
  pub draw : ℕ

pub data Mode : Type 0 where
  duel singleplayer team_duel free_for_all : Mode

pub data Phase : Type 0 where
  live round_result ended : Phase

pub data RoundPhase : Type 0 where
  round_intro round_live round_result round_transition ended : RoundPhase

pub data RoundTimerMode : Type 0 where
  untimed pressure fixed : RoundTimerMode

pub data GameRuleset : Type 0 where
  moving nmpz : GameRuleset

pub record MatchConfig : Type 0 where
  pub game_ruleset : Option GameRuleset
  pub round_time_limit_ms : Option ℕ
  pub round_timer_mode : Option RoundTimerMode
  pub pressure_time_limit_ms : Option ℕ

pub record CurrentRound : Type 0 where
  pub round_id : String
  pub round_number : ℕ
  pub timer_started : Option Bool

pub record SelfView : Type 0 where
  pub user_id : String
  pub current_guess : Option LatLng

pub record Snapshot : Type 0 where
  pub match_id : String
  pub mode : Option Mode
  pub config : Option MatchConfig
  pub unranked : Option Bool
  pub state : String
  pub phase : Phase
  pub round_phase : RoundPhase
  pub phase_ends_at : ℕ
  pub round_ms_left : ℕ
  pub current_round : Option CurrentRound
  pub last_round_result : Option RoundResult
  pub round_results : Option (List RoundResult)
  pub players : List (String × SnapshotPlayer)
  pub teams : List (String × SnapshotTeam)
  pub rating_preview : List (String × RatingDeltaPreview)
  pub self : Option SelfView
  pub event_sequence : ℕ
  pub server_unix_ms : Option ℕ

abbrev pub is_live : Phase → Bool
is_live Phase.live = true
is_live _ = false

abbrev pub is_round_live : RoundPhase → Bool
is_round_live RoundPhase.round_live = true
is_round_live _ = false

abbrev pub is_round_intro : RoundPhase → Bool
is_round_intro RoundPhase.round_intro = true
is_round_intro _ = false

abbrev pub is_singleplayer : Option Mode → Bool
is_singleplayer (some Mode.singleplayer) = true
is_singleplayer _ = false

-- `record[key]`, which is `undefined` for a key that is not there.
abbrev pub lookup {ℓ} : {A : Type ℓ} → String → List (String × A) → Option A
lookup key [] = none
lookup key ((k, v) ∷ entries) = if k == key then some v else lookup key entries

-- `snapshot.currentRound?.roundId || ''`.
abbrev pub current_round_id : Snapshot → String
current_round_id snapshot = elim snapshot.current_round [ none ↦ "" | some r ↦ r.round_id ]
