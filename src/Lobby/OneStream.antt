-- ===== src/Lobby/OneStream.antt =====
-- features/lobby/controllers/lobby-controller.ts: which streams are live, and which lobby is shown,
-- over every run of the controller.
pub mod Steps
pub mod Events
pub mod Calls
pub mod Live
use geoduels.Base.{
  ℕ, suc, ◌≡◌, ◌≢◌, ◌≤◌, ◌<◌, refl, sym, ◌∙◌, ap, subst, String, Bool, true, false, Option, none,
  some, arith, if◌then◌else◌, ◌==◌, nat_eq, string_eq, Bool-cases, Option-cases, inl, inr, ◌⊎◌,
  is_some, not, ◌&&◌, ◌||◌, truthy, or_text, or_else, includes, lower,
}
use geoduels.Session.{AuthSessionSnapshot}
use geoduels.Lobby.Types.{
  LobbySnapshot, LobbyEvent, lobby_snapshot, lobby_patch, match_assigned, lobby_error,
}
use geoduels.Lobby.Patch.{patch_lobby, apply_lobby_patch}
use geoduels.Lobby.Stream.{LobbyStream, Outcome, resolved, rejected, aborted}
use geoduels.Lobby.Stream
use geoduels.Lobby.Controller
use geoduels.Lobby.Controller.{LobbyController, LobbyRuntimeState, LobbyRuntimeStatus, Request}

-- The listener is there until the promise ends, and the abort of the signal ends it.
pub record IsSound (w : LobbyStream) : Type 0 where
  pub heard : w.listening ≡ not (is_some w.settled)
  pub aborted_ends : w.is_aborted ≡ true → is_some w.settled ≡ true

pub settle-IsSound : (w : LobbyStream) (o : Outcome) → IsSound w → IsSound (Stream.settle w o)
unfolding Stream.settle
settle-IsSound w o v = record {
  heard = ground arith;
  aborted_ends = λ h. grind (arith, v.aborted_ends);
}

pub abort-IsSound : (w : LobbyStream) → IsSound w → IsSound (Stream.abort w)
unfolding Stream.abort Stream.settle
abort-IsSound w v = record {
  heard = ground arith;
  aborted_ends = λ h. grind (arith, v.aborted_ends);
}

pub on_close-IsSound : (w : LobbyStream) → IsSound w → IsSound (Stream.on_close w)
unfolding Stream.on_close
on_close-IsSound w v = record {
  heard = ground arith;
  aborted_ends = λ h. grind (arith, v.aborted_ends);
}

pub aborted-on_close :
    (w : LobbyStream) → w.is_aborted ≡ true → (Stream.on_close w).is_aborted ≡ true
unfolding Stream.on_close
aborted-on_close w h = ground arith

pub aborted-settle :
    (w : LobbyStream) (o : Outcome) → w.is_aborted ≡ true → (Stream.settle w o).is_aborted ≡ true
unfolding Stream.settle
aborted-settle w o h = ground arith

pub abort_lem : (w : LobbyStream) → (Stream.abort w).is_aborted ≡ true
unfolding Stream.abort Stream.settle
abort_lem w = ground arith

-- What decides which streams are live, and which lobby is shown.
pub record Account : Type 0 where
  pub stream_abort : Option ℕ
  pub has_session : Bool
  pub connect_request_id : ℕ
  pub requests : ℕ → Request
  pub lobby_id : String
  pub snapshot : Option LobbySnapshot

abbrev pub account : LobbyController → Account
account c = record {
  stream_abort = c.stream_abort;
  has_session = is_some c.stream_session;
  connect_request_id = c.connect_request_id;
  requests = c.requests;
  lobby_id = c.state.lobby_id;
  snapshot = c.state.snapshot;
}

abbrev pub snapshot_id : Option LobbySnapshot → String
snapshot_id none = ""
snapshot_id (some lobby) = lobby.id

-- The controller's stream is of the latest request, and it has its session; every other stream that
-- was made is aborted; the shown lobby has the id of its snapshot.
pub record IsSingle (a : Account) : Type 0 where
  pub latest : (i : ℕ) → a.stream_abort ≡ some i → i ≡ a.connect_request_id
  pub with_session : a.has_session ≡ is_some a.stream_abort
  pub others_aborted :
      (i : ℕ)
      → 0 < i
      → i ≤ a.connect_request_id
      → a.stream_abort ≢ some i
      → (a.requests i).stream.is_aborted ≡ true
  pub sound : (i : ℕ) → IsSound (a.requests i).stream
  pub named : a.lobby_id ≡ snapshot_id a.snapshot

-- The ways in which a step changes the account.
abbrev pub shows : Account → LobbySnapshot → Account
shows a lobby = record a { lobby_id = lobby.id; snapshot = some lobby }

abbrev pub shows_none : Account → Account
shows_none a = record a { lobby_id = ""; snapshot = none }

abbrev pub updated : Account → ℕ → Request → Account
updated a i r = record a { requests = λ j. if i == j then r else a.requests j }

abbrev pub aborted_of : Account → Option ℕ → Account
aborted_of a none = a
aborted_of a (some i) =
    updated a i (record (a.requests i) { stream = Stream.abort (a.requests i).stream })

abbrev pub shut : Account → Account
shut a = record (aborted_of a a.stream_abort) { stream_abort = none; has_session = false }

abbrev pub connected : Account → Bool → Account
connected a waits =
    let id = suc a.connect_request_id in
    updated (record a { connect_request_id = id; stream_abort = some id; has_session = true }) id
      (Controller.new_request waits)

pub shows-IsSingle : (a : Account) (lobby : LobbySnapshot) → IsSingle a → IsSingle (shows a lobby)
shows-IsSingle a lobby v = record {
  latest = v.latest;
  with_session = v.with_session;
  others_aborted = v.others_aborted;
  sound = v.sound;
  named = refl;
}

pub shows_none-IsSingle : (a : Account) → IsSingle a → IsSingle (shows_none a)
shows_none-IsSingle a v = record {
  latest = v.latest;
  with_session = v.with_session;
  others_aborted = v.others_aborted;
  sound = v.sound;
  named = refl;
}

pub updated-IsSingle :
    (a : Account) (i : ℕ) (r : Request)
    → ((a.requests i).stream.is_aborted ≡ true → r.stream.is_aborted ≡ true)
    → IsSound r.stream
    → IsSingle a
    → IsSingle (updated a i r)
updated-IsSingle a i r keeps s v = record {
  latest = v.latest;
  with_session = v.with_session;
  others_aborted = λ j p q h. elim (Bool-cases (i == j)) [
    | inl same ↦ rw same (keeps (grind (arith, v.others_aborted j)))
    | inr other ↦ rw other (v.others_aborted j p q h)
  ];
  sound =
      λ j. elim (Bool-cases (i == j)) [ inl same ↦ rw same s | inr other ↦ rw other (v.sound j) ];
  named = v.named;
}

shut_of-IsSingle :
    (a : Account) (o : Option ℕ)
    → a.stream_abort ≡ o
    → IsSingle a
    → IsSingle (record (aborted_of a o) { stream_abort = none; has_session = false })
shut_of-IsSingle a none e v = record {
  latest = λ i h. cc;
  with_session = refl;
  others_aborted = λ i p q h. v.others_aborted i p q (λ k. cc);
  sound = v.sound;
  named = v.named;
}
shut_of-IsSingle a (some j) e v = record {
  latest = λ i h. cc;
  with_session = refl;
  others_aborted = λ i p q h. elim (Bool-cases (j == i)) [
    | inl same ↦ rw same (abort_lem (a.requests j).stream)
    | inr other ↦ rw other (v.others_aborted i p q (λ k. grind arith))
  ];
  sound = λ i. elim (Bool-cases (j == i)) [
    | inl same ↦ rw same (abort-IsSound (a.requests j).stream (v.sound j))
    | inr other ↦ rw other (v.sound i)
  ];
  named = v.named;
}

pub shut-IsSingle : (a : Account) → IsSingle a → IsSingle (shut a)
shut-IsSingle a v = shut_of-IsSingle a a.stream_abort refl v

pub new_request-IsSound : (waits : Bool) → IsSound (Controller.new_request waits).stream
unfolding Controller.new_request Stream.new_stream
new_request-IsSound waits = record { heard = refl; aborted_ends = λ h. cc }

pub connected-IsSingle :
    (a : Account) (waits : Bool) → a.stream_abort ≡ none → IsSingle a → IsSingle (connected a waits)
connected-IsSingle a waits e v = record {
  latest = λ i h. grind arith;
  with_session = refl;
  others_aborted = λ i p q h. elim (Bool-cases (suc a.connect_request_id == i)) [
    | inl same ↦ absurd (h (grind arith))
    | inr other ↦ rw other (v.others_aborted i p (grind arith) (λ k. cc))
  ];
  sound = λ i. elim (Bool-cases (suc a.connect_request_id == i)) [
    | inl same ↦ rw same (new_request-IsSound waits)
    | inr other ↦ rw other (v.sound i)
  ];
  named = v.named;
}
