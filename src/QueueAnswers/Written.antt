-- ===== src/QueueAnswers/Written.antt =====
-- features/matchmaking/lib/queue-client.ts: an answer that is written out is read as it was.
use geoduels.Base.{
  ◌≡◌, refl, ap, ◌∙◌, String, Bool, true, Option, none, some, arith, if◌then◌else◌, string_eq,
  truthy, ◌&&◌,
}
use geoduels.Auth.Json.{Json, text, object, Fields, end, field, is_object}
use geoduels.QueueAnswers.Values.{is_truthy, get_in, text_in, object_of, truthy_of}
use geoduels.QueueAnswers.Session.{
  SourceLobby, LiveMatch, MatchAnswer, live_connectable, live_auth_required, history, replaced,
  missing, forbidden, source_lobby_of, live_match, replacement_of, answer_of, status_in,
  normalize_match_session,
}

-- The objects that stand for what was read, with a field for each thing that is there.
abbrev field_or : Option Json → String → Fields → Fields
field_or none k fs = fs
field_or (some v) k fs = field k v fs

abbrev lobby_fields : Option SourceLobby → Fields
lobby_fields none = end
lobby_fields (some l) =
    field "sourceLobbyId" (text l.source_lobby_id)
      (field "sourceLobbyInviteCode" (text l.source_lobby_invite_code) end)

abbrev live_fields : LiveMatch → Fields
live_fields m = field "matchId" (text m.match_id) (
    field "mode" (text m.mode) (
      field "ticket" (text m.ticket) (
        field "node" (text m.node) (
          field "wsPath" (text m.ws_path)
            (field_or m.config "config" (lobby_fields m.source_lobby))))))

abbrev replacement_field : Option LiveMatch → Fields → Fields
replacement_field none fs = fs
replacement_field (some m) fs = field "replacement" (object (live_fields m)) fs

abbrev pub answer_json : MatchAnswer → Json
answer_json (live_connectable m) = object (field "status" (text "live_connectable") (live_fields m))
answer_json (live_auth_required id) =
    object (field "status" (text "live_auth_required") (field "matchId" (text id) end))
answer_json (history id snapshot replacement lobby) = object (
    field "status" (text "history") (
      field "matchId" (text id) (
        field "replacementMatchId" (text replacement)
          (field_or snapshot "snapshot" (lobby_fields lobby)))))
answer_json (replaced id replacement m lobby) = object (
    field "status" (text "replaced") (
      field "matchId" (text id)
        (field "replacementMatchId" (text replacement) (replacement_field m (lobby_fields lobby)))))
answer_json (missing id) = object (field "status" (text "missing") (field "matchId" (text id) end))
answer_json (forbidden id) =
    object (field "status" (text "forbidden") (field "matchId" (text id) end))

-- What every reading has: a code where there is a lobby, an object as a configuration, and a snapshot
-- that is no empty value.
abbrev pub has_code : Option SourceLobby → Bool
has_code none = true
has_code (some l) = truthy l.source_lobby_invite_code

abbrev pub is_object_or : Option Json → Bool
is_object_or none = true
is_object_or (some v) = is_object v

abbrev pub is_truthy_or : Option Json → Bool
is_truthy_or none = true
is_truthy_or (some v) = is_truthy v

abbrev pub is_clean_live : LiveMatch → Bool
is_clean_live m = is_object_or m.config && has_code m.source_lobby

abbrev pub is_clean_live_or : Option LiveMatch → Bool
is_clean_live_or none = true
is_clean_live_or (some m) = is_clean_live m

abbrev pub is_clean : MatchAnswer → Bool
is_clean (live_connectable m) = is_clean_live m
is_clean (history id snapshot replacement lobby) = is_truthy_or snapshot && has_code lobby
is_clean (replaced id replacement m lobby) = is_clean_live_or m && has_code lobby
is_clean a = true

abbrev live_of :
    String → String → String → String → String → Option Json → Option SourceLobby → LiveMatch
live_of id mode ticket node ws_path config lobby = record {
  match_id = id;
  mode = mode;
  config = config;
  ticket = ticket;
  node = node;
  ws_path = ws_path;
  source_lobby = lobby;
}

-- A live match is read back, after a status or not.
live_lem :
    (id mode ticket node ws_path : String) (config : Option Json) (lobby : Option SourceLobby)
    (fallback : String)
    → let m = live_of id mode ticket node ws_path config lobby in
      is_clean_live m ≡ true
      → (live_match (some (object (live_fields m))) fallback ≡ m)
        × (live_match
              (some (object (field "status" (text "live_connectable") (live_fields m))))
              fallback
            ≡ m)
unfolding live_match object_of source_lobby_of
live_lem id mode ticket node ws_path none none fallback h = (refl, refl)
live_lem id mode ticket node ws_path none (some l) fallback h = (ground arith, ground arith)
live_lem id mode ticket node ws_path (some v) none fallback h = (ground arith, ground arith)
live_lem id mode ticket node ws_path (some v) (some l) fallback h = (ground arith, ground arith)

live_again :
    (m : LiveMatch) (fallback : String)
    → is_clean_live m ≡ true
    → (live_match (some (object (live_fields m))) fallback ≡ m)
      × (live_match
            (some (object (field "status" (text "live_connectable") (live_fields m))))
            fallback
          ≡ m)
live_again m fallback h =
    live_lem m.match_id m.mode m.ticket m.node m.ws_path m.config m.source_lobby fallback h

history_lem :
    (id replacement : String) (snapshot : Option Json) (lobby : Option SourceLobby)
    (fallback : String)
    → let a = history id snapshot replacement lobby in
      is_clean a ≡ true → normalize_match_session (some (answer_json a)) fallback ≡ a
unfolding normalize_match_session
history_lem id replacement none none fallback h = refl
history_lem id replacement none (some l) fallback h = ground arith
history_lem id replacement (some v) none fallback h = ground arith
history_lem id replacement (some v) (some l) fallback h = ground arith

replaced_lem :
    (id replacement : String) (m : Option LiveMatch) (lobby : Option SourceLobby)
    (fallback : String)
    → let a = replaced id replacement m lobby in
      is_clean a ≡ true → normalize_match_session (some (answer_json a)) fallback ≡ a
unfolding normalize_match_session
replaced_lem id replacement none none fallback h = refl
replaced_lem id replacement none (some l) fallback h = ground arith
replaced_lem id replacement (some m) none fallback h =
    ap (λ n. replaced id replacement (some n) none) ((live_again m "" (ground arith)).0)
replaced_lem id replacement (some m) (some l) fallback h =
    ap
      (λ n.
        replaced id replacement (some n)
          (if truthy l.source_lobby_invite_code then some l else none))
      ((live_again m "" (ground arith)).0)
    ∙ ap (λ b. replaced id replacement (some m) (if b then some l else none)) {y = true}
        (ground arith)

status_lem :
    (id mode ticket node ws_path : String) (config : Option Json) (lobby : Option SourceLobby)
    → let m = live_of id mode ticket node ws_path config lobby in
      status_in (some (answer_json (live_connectable m))) ≡ "live_connectable"
unfolding status_in
status_lem id mode ticket node ws_path none none = refl
status_lem id mode ticket node ws_path none (some l) = refl
status_lem id mode ticket node ws_path (some v) none = refl
status_lem id mode ticket node ws_path (some v) (some l) = refl

pub answer_lem :
    (a : MatchAnswer) (fallback : String)
    → is_clean a ≡ true
    → normalize_match_session (some (answer_json a)) fallback ≡ a
unfolding normalize_match_session
answer_lem (live_connectable m) fallback h =
    let o = some (answer_json (live_connectable m)) in
    ap
      (λ s.
        answer_of s (live_match o fallback) (truthy_of (get_in "snapshot" o))
          (text_in "replacementMatchId" o) (replacement_of (object_of (get_in "replacement" o)))
          (source_lobby_of o))
      (status_lem m.match_id m.mode m.ticket m.node m.ws_path m.config m.source_lobby)
    ∙ ap (λ n. live_connectable n) ((live_again m fallback h).1)
answer_lem (live_auth_required id) fallback h = refl
answer_lem (history id snapshot replacement lobby) fallback h =
    history_lem id replacement snapshot lobby fallback h
answer_lem (replaced id replacement m lobby) fallback h =
    replaced_lem id replacement m lobby fallback h
answer_lem (missing id) fallback h = refl
answer_lem (forbidden id) fallback h = refl
