-- ===== src/Home/Names.antt =====
-- features/home/model/derive-home-model.ts: the names of the user, of the opponent and of the teams.
use Prim.Native.Char.{code}
use geoduels.Base.{
  String, Bool, false, Option, none, some, if◌then◌else◌, ◌==◌, string_eq, nat_eq, or_else, or_text,
  truthy, not, ◌&&◌, trim, upper,
}
use geoduels.Snapshot.{SnapshotPlayer, lookup}
use geoduels.Auth.State.{SessionState}
use geoduels.Home.Model.{
  Params, snapshot, mode_of, is_team, is_free, players_of, self_team_id, opp_id, opp_team_id,
}

unfoldable pub team_name : String → String
team_name team = if team == "b" then "Team Blue" else "Team Red"

unfoldable pub team_fallback : String → String
team_fallback team = if team == "b" then "B" else "R"

unfoldable pub team_color : String → String
team_color team = if team == "b" then "#2563eb" else "#dc2626"

-- `email.split("@")[0]`.
unfoldable pub email_local : String → String
email_local String.[] = ""
email_local (String.◌∷◌ c s) =
    let rest = email_local s in if code c == b'@' then "" else String.◌∷◌ c rest

abbrev is_name_for : String → String → Bool
is_name_for user name = truthy name && not (name == user)

unfoldable pub get_self_queue_name : SessionState → String
unfolding trim email_local
get_self_queue_name s =
    let direct = trim s.display_name in
    let nick = trim s.nickname_input in
    let local = trim (email_local s.user_email) in
    if is_name_for s.user_id direct
    then direct
    else if is_name_for s.user_id nick
    then nick
    else if is_name_for s.user_id local
    then local
    else direct

abbrev shown_name : String → Option SnapshotPlayer → String
shown_name user none = ""
shown_name user (some q) = if is_name_for user q.display_name then q.display_name else ""

unfoldable pub self_name : Params → String
unfolding snapshot get_self_queue_name
self_name p =
    or_text (shown_name p.auth.user_id (lookup p.auth.user_id (players_of (snapshot p))))
      (or_text (get_self_queue_name p.auth) "You")

abbrev opponent_text : Option SnapshotPlayer → String
opponent_text none = "Opponent"
opponent_text (some q) = or_text q.display_name "Opponent"

abbrev opponent_of : Params → Option SnapshotPlayer
opponent_of p = if truthy (opp_id p) then lookup (opp_id p) (players_of (snapshot p)) else none

unfoldable pub opponent_name : Params → String
unfolding snapshot mode_of opp_id opp_team_id team_name
opponent_name p =
    if is_team (mode_of (snapshot p))
    then team_name (opp_team_id p)
    else if is_free (mode_of (snapshot p))
    then "Players"
    else opponent_text (opponent_of p)

unfoldable pub display_self_name : Params → String
unfolding snapshot mode_of self_team_id self_name team_name
display_self_name p =
    if is_team (mode_of (snapshot p)) then team_name (self_team_id p) else self_name p

-- `text.slice(0, 1)`, of a text whose first character is in the basic plane.
abbrev first_char : String → String
first_char String.[] = ""
first_char (String.◌∷◌ c s) = String.◌∷◌ c ""

unfoldable pub avatar_fallback : String → String → Bool → String
unfolding upper
avatar_fallback value fallback no_linked_account =
    if no_linked_account then "?" else upper (first_char (or_text value fallback))

abbrev guest_or : Option SnapshotPlayer → Bool → Bool
guest_or none guest = guest
guest_or (some q) guest = or_else q.is_guest guest

unfoldable pub self_has_no_linked_account : Params → Bool
unfolding snapshot
self_has_no_linked_account p = not (
    truthy p.auth.user_email
    && not (guest_or (lookup p.auth.user_id (players_of (snapshot p))) p.auth.is_guest))

unfoldable pub self_fallback : Params → String
unfolding snapshot mode_of self_team_id team_fallback avatar_fallback self_name
    self_has_no_linked_account
self_fallback p =
    if is_team (mode_of (snapshot p))
    then team_fallback (self_team_id p)
    else avatar_fallback (or_text (self_name p) p.auth.user_email) "Y"
        (self_has_no_linked_account p)

unfoldable pub opp_fallback : Params → String
unfolding snapshot mode_of opp_team_id opp_id team_fallback avatar_fallback opponent_name
opp_fallback p =
    let team = is_team (mode_of (snapshot p)) in
    avatar_fallback
      (if team then team_fallback (opp_team_id p) else or_text (opp_id p) (opponent_name p))
      (if team then team_fallback (opp_team_id p) else "O") (guest_or (opponent_of p) false)
