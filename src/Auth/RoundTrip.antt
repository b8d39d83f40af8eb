-- ===== src/Auth/RoundTrip.antt =====
-- features/auth/controllers/session-controller.ts: what the server sends in full is read as it is.
use geoduels.Base.{
  ℕ, ◌≡◌, refl, String, Bool, false, Option, none, some, List, [], ◌∷◌, arith, or_else, truthy,
  if◌then◌else◌, ap, ◌∙◌, string_eq,
}
use geoduels.Lobby.Types.{PlayerBadgeInfo}
use geoduels.Auth.Json.{
  Json, bool, num, text, array, object, Items, nil, cons, Fields, end, field, list_of, as_array,
}
use geoduels.Auth.Read.{
  LeaderboardSummary, LeaderboardEntrySummary, read_badge, normalize_badge, badges_of,
  normalize_badges, with_id, normalize_entry, entries_of, with_entry, normalize_leaderboard,
}

-- The objects that stand for an entry and a summary, and for a badge; a field that is missing in a
-- badge is not there.
abbrev pub entry_json : LeaderboardEntrySummary → Json
entry_json e = object (
    field "rank" (num e.rank) (
      field "userId" (text e.user_id) (
        field "displayName" (text e.display_name) (
          field "avatarUrl" (text e.avatar_url) (
            field "mmr" (num e.mmr)
              (field "gamesPlayed" (num e.games_played) (field "wins" (num e.wins) end)))))))

abbrev pub entries_json : List LeaderboardEntrySummary → Items
entries_json [] = nil
entries_json (e ∷ es) = cons (entry_json e) (entries_json es)

abbrev pub leaderboard_json : LeaderboardSummary → Json
leaderboard_json l = object (
    field "mode" (text l.mode) (
      field "season" (text l.season) (
        field "selfRank" (num l.self_rank) (
          field "totalPlayers" (num l.total_players)
            (field "entries" (array (entries_json l.entries)) end)))))

abbrev text_or : Option String → String → Fields → Fields
text_or none k fs = fs
text_or (some s) k fs = field k (text s) fs

abbrev num_or : Option ℕ → String → Fields → Fields
num_or none k fs = fs
num_or (some n) k fs = field k (num n) fs

abbrev bool_or : Option Bool → String → Fields → Fields
bool_or none k fs = fs
bool_or (some b) k fs = field k (bool b) fs

abbrev pub badge_json : PlayerBadgeInfo → Json
badge_json b = object (
    field "id" (text b.id) (
      field "kind" (text b.kind) (
        field "label" (text b.label) (
          field "description" (text b.description) (
            field "imageUrl" (text b.image_url) (
              text_or b.season_id "seasonId"
                (num_or b.rank "rank" (bool_or b.owned "owned" end))))))))

abbrev pub badges_json : List PlayerBadgeInfo → Items
badges_json [] = nil
badges_json (b ∷ bs) = cons (badge_json b) (badges_json bs)

entry_lem : (e : LeaderboardEntrySummary) → normalize_entry (entry_json e) ≡ some e
unfolding normalize_entry
entry_lem e = refl

entries_lem : (es : List LeaderboardEntrySummary) → entries_of (list_of (entries_json es)) ≡ es
unfolding entries_of list_of with_entry
entries_lem [] = refl
entries_lem (e ∷ es) = ap (λ xs. e ∷ xs) (entries_lem es)

leaderboard_lem :
    (l : LeaderboardSummary) → normalize_leaderboard (some (leaderboard_json l)) ≡ some l
unfolding normalize_leaderboard as_array
leaderboard_lem l = ap (λ es. some (record l { entries = es })) (entries_lem l.entries)

-- A badge as it is read: whether it is owned is always known.
abbrev pub known : PlayerBadgeInfo → PlayerBadgeInfo
known b = record b { owned = some (or_else b.owned false) }

badge_lem : (b : PlayerBadgeInfo) → normalize_badge (some (badge_json b)) ≡ some (known b)
unfolding normalize_badge read_badge
badge_lem b = ground arith

-- The badges that have an id, as they are read.
abbrev pub known_badges : List PlayerBadgeInfo → List PlayerBadgeInfo
known_badges [] = []
known_badges (b ∷ bs) = if truthy b.id then known b ∷ known_badges bs else known_badges bs

badges_lem : (bs : List PlayerBadgeInfo) → badges_of (list_of (badges_json bs)) ≡ known_badges bs
unfolding badges_of list_of with_id
badges_lem [] = refl
badges_lem (b ∷ bs) =
    ap (λ o. with_id o (badges_of (list_of (badges_json bs)))) (badge_lem b)
    ∙ ap (λ xs. if truthy b.id then known b ∷ xs else xs) (badges_lem bs)

-- A leaderboard that is written out as an object is read back as it was; and of badges that are
-- written out as an array, those with an id are read back in their order, each as it was but for a
-- missing `owned`, which is read as false.
pub written_out_is_read_back :
    (l : LeaderboardSummary) (bs : List PlayerBadgeInfo)
    → (normalize_leaderboard (some (leaderboard_json l)) ≡ some l)
      × (normalize_badges (some (array (badges_json bs))) ≡ known_badges bs)
unfolding normalize_badges as_array
written_out_is_read_back l bs = (leaderboard_lem l, badges_lem bs)
