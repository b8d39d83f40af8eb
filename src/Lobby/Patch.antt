-- ===== src/Lobby/Patch.antt =====
-- features/lobby/lib/lobby-client.ts: `applyLobbyPatch`. A `Map` is a list of entries in the order of
-- their insertion.
pub mod View
use geoduels.Base.{
  String, Bool, true, false, Option, none, some, List, [], ◌∷◌, map, if◌then◌else◌, ◌==◌, string_eq,
  or_else, or_option, not, ◌||◌,
}
use geoduels.Lobby.Types.{LobbyMember, LobbySnapshot, LobbyPatch}

-- `{ ...old, ...member }`.
unfoldable pub merge : LobbyMember → LobbyMember → LobbyMember
merge old member = record member {
  avatar_url = or_option member.avatar_url old.avatar_url;
  is_guest = or_option member.is_guest old.is_guest;
  is_admin = or_option member.is_admin old.is_admin;
  selected_badge = or_option member.selected_badge old.selected_badge;
  team_id = or_option member.team_id old.team_id;
  ready = or_option member.ready old.ready;
  connected = or_option member.connected old.connected;
  presence_status = or_option member.presence_status old.presence_status;
}

-- `{ ...(old || {}), ...member }`.
unfoldable pub merge_over : Option LobbyMember → LobbyMember → LobbyMember
unfolding merge
merge_over none member = member
merge_over (some old) member = merge old member

abbrev pub MemberMap : Type 0
MemberMap = List (String × LobbyMember)

unfoldable pub get : String → MemberMap → Option LobbyMember
get k [] = none
get k ((j, m) ∷ ms) = if j == k then some m else get k ms

-- A key that is there keeps its place.
unfoldable pub set : String → LobbyMember → MemberMap → MemberMap
set k m [] = (k, m) ∷ []
set k m ((j, n) ∷ ms) = if j == k then (j, m) ∷ ms else (j, n) ∷ set k m ms

unfoldable pub values : MemberMap → List LobbyMember
values [] = []
values ((k, m) ∷ ms) = m ∷ values ms

abbrev pub has : String → List String → Bool
has k [] = false
has k (j ∷ js) = j == k || has k js

-- `new Map(members.filter(…).map(…))`: the entries are set one after the other.
unfoldable pub kept_members : List String → List LobbyMember → MemberMap → MemberMap
unfolding set
kept_members removed [] kept = kept
kept_members removed (m ∷ ms) kept =
    kept_members removed ms (if has m.user_id removed then kept else set m.user_id m kept)

unfoldable pub upsert : MemberMap → List LobbyMember → MemberMap
unfolding get set merge_over
upsert members [] = members
upsert members (m ∷ ms) = upsert (set m.user_id (merge_over (get m.user_id members) m) members) ms

-- `list?.length` is truthy.
abbrev pub is_nonempty {ℓ} : {A : Type ℓ} → Option (List A) → Bool
is_nonempty none = false
is_nonempty (some []) = false
is_nonempty (some (x ∷ xs)) = true

unfoldable pub patch_members : List LobbyMember → LobbyPatch → List LobbyMember
unfolding kept_members upsert values
patch_members members patch =
    if is_nonempty patch.upsert_members || is_nonempty patch.remove_member_ids
    then values (
        upsert (kept_members (or_else patch.remove_member_ids []) members [])
          (or_else patch.upsert_members []))
    else members

unfoldable pub patch_lobby : LobbySnapshot → LobbyPatch → LobbySnapshot
patch_lobby lobby patch = record lobby {
  state = or_else patch.state lobby.state;
  owner_user_id = or_else patch.owner_user_id lobby.owner_user_id;
  mode = or_else patch.mode lobby.mode;
  config = or_option patch.config lobby.config;
  active_match_id = or_option patch.active_match_id lobby.active_match_id;
  last_match_id = or_option patch.last_match_id lobby.last_match_id;
  started_match_id = or_option patch.started_match_id lobby.started_match_id;
  members = patch_members lobby.members patch;
}

unfoldable pub apply_lobby_patch : Option LobbySnapshot → LobbyPatch → Option LobbySnapshot
unfolding patch_lobby patch_members
apply_lobby_patch none patch = none
apply_lobby_patch (some lobby) patch = some (patch_lobby lobby patch)
