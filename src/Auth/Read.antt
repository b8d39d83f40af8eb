-- ===== src/Auth/Read.antt =====
-- features/auth/controllers/session-controller.ts: what is read of a badge, of a list of badges and of
-- a leaderboard, whatever the server sent.
use geoduels.Base.{
  ℕ, String, false, Option, none, some, List, [], ◌∷◌, if◌then◌else◌, or_else, truthy, length,
}
use geoduels.Lobby.Types.{PlayerBadgeInfo}
use geoduels.Auth.Json.{Json, get, is_object, as_text, as_num, as_bool, as_array}

-- lib/elo.ts.
abbrev pub initial_mmr : ℕ
initial_mmr = 500

abbrev pub initial_rating_rd : ℕ
initial_rating_rd = 220

unfoldable pub read_badge : Json → PlayerBadgeInfo
unfolding get as_text as_num as_bool
read_badge raw = record {
  id = or_else (as_text (get "id" raw)) "";
  kind = or_else (as_text (get "kind" raw)) "";
  label = or_else (as_text (get "label" raw)) "";
  description = or_else (as_text (get "description" raw)) "";
  image_url = or_else (as_text (get "imageUrl" raw)) "";
  season_id = as_text (get "seasonId" raw);
  rank = as_num (get "rank" raw);
  owned = some (or_else (as_bool (get "owned" raw)) false);
}

unfoldable pub normalize_badge : Option Json → Option PlayerBadgeInfo
unfolding is_object read_badge
normalize_badge none = none
normalize_badge (some raw) = if is_object raw then some (read_badge raw) else none

-- `.filter((badge) => !!badge?.id)`.
unfoldable pub with_id : Option PlayerBadgeInfo → List PlayerBadgeInfo → List PlayerBadgeInfo
with_id none bs = bs
with_id (some b) bs = if truthy b.id then b ∷ bs else bs

unfoldable pub badges_of : List Json → List PlayerBadgeInfo
unfolding normalize_badge with_id
badges_of [] = []
badges_of (v ∷ vs) = with_id (normalize_badge (some v)) (badges_of vs)

unfoldable pub normalize_badges : Option Json → List PlayerBadgeInfo
unfolding as_array badges_of
normalize_badges o = badges_of (or_else (as_array o) [])

pub record LeaderboardEntrySummary : Type 0 where
  pub rank : ℕ
  pub user_id : String
  pub display_name : String
  pub avatar_url : String
  pub mmr : ℕ
  pub games_played : ℕ
  pub wins : ℕ

pub record LeaderboardSummary : Type 0 where
  pub mode : String
  pub season : String
  pub self_rank : ℕ
  pub total_players : ℕ
  pub entries : List LeaderboardEntrySummary

unfoldable pub read_entry : Json → LeaderboardEntrySummary
unfolding get as_text as_num
read_entry raw = record {
  rank = or_else (as_num (get "rank" raw)) 0;
  user_id = or_else (as_text (get "userId" raw)) "";
  display_name = or_else (as_text (get "displayName" raw)) "";
  avatar_url = or_else (as_text (get "avatarUrl" raw)) "";
  mmr = or_else (as_num (get "mmr" raw)) initial_mmr;
  games_played = or_else (as_num (get "gamesPlayed" raw)) 0;
  wins = or_else (as_num (get "wins" raw)) 0;
}

unfoldable pub normalize_entry : Json → Option LeaderboardEntrySummary
unfolding is_object read_entry
normalize_entry raw = if is_object raw then some (read_entry raw) else none

unfoldable pub with_entry :
    Option LeaderboardEntrySummary → List LeaderboardEntrySummary → List LeaderboardEntrySummary
with_entry none es = es
with_entry (some e) es = e ∷ es

unfoldable pub entries_of : List Json → List LeaderboardEntrySummary
unfolding normalize_entry with_entry
entries_of [] = []
entries_of (v ∷ vs) = with_entry (normalize_entry v) (entries_of vs)

unfoldable pub read_leaderboard : Json → LeaderboardSummary
unfolding get as_text as_num as_array entries_of
read_leaderboard raw =
    let entries = entries_of (or_else (as_array (get "entries" raw)) []) in
    record {
      mode = or_else (as_text (get "mode" raw)) "duel";
      season = or_else (as_text (get "season" raw)) "s2";
      self_rank = or_else (as_num (get "selfRank" raw)) 0;
      total_players = or_else (as_num (get "totalPlayers" raw)) (length entries);
      entries = entries;
    }

unfoldable pub normalize_leaderboard : Option Json → Option LeaderboardSummary
unfolding is_object read_leaderboard
normalize_leaderboard none = none
normalize_leaderboard (some raw) = if is_object raw then some (read_leaderboard raw) else none
