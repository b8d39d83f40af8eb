-- ===== src/QueueStream.antt =====
-- features/matchmaking/lib/queue-client.ts: `streamQueue`, the promise of a search on a websocket.
pub mod Settled
mod Tests
use geoduels.Base.{
  ℕ, String, Bool, true, false, Option, none, some, List, [], ◌∷◌, if◌then◌else◌, ◌==◌, string_eq,
  or_else, or_text, is_some,
}
use geoduels.MatchSession.{QueueEvent, queue_status, match_assigned, queue_error}

-- How the promise ends, with an error's message; an aborted one is told apart by its name.
pub data Outcome : Type 0 where
  resolved : Outcome
  rejected : String → Outcome
  aborted : Outcome

-- `listening` is the listener of the signal, `is_aborted` the signal itself, `closes` whether the
-- websocket was closed, and `delivered` what `onEvent` was called with, the latest first.
pub record QueueStream : Type 0 where
  pub settled : Option Outcome
  pub is_assigned : Bool
  pub is_aborted : Bool
  pub listening : Bool
  pub closes : Bool
  pub delivered : List QueueEvent

-- A new stream; a signal that was aborted before stays so, and calls no listener.
unfoldable pub new_stream : Bool → QueueStream
new_stream is_aborted = record {
  settled = none;
  is_assigned = false;
  is_aborted = is_aborted;
  listening = true;
  closes = false;
  delivered = [];
}

-- The payload as the client reads it: texts that are there, a finite number, and the truthy `status`
-- and `message`, empty where there is none.
pub record QueuePayload : Type 0 where
  pub status : String
  pub queued_at : Option ℕ
  pub match_id : Option String
  pub node : Option String
  pub ticket : Option String
  pub ws_path : Option String
  pub source_lobby_id : Option String
  pub source_lobby_invite_code : Option String
  pub message : String

pub data QueueData : Type 0 where
  not_json : QueueData
  value : String → QueuePayload → QueueData

-- `settleResolve` and `settleReject`: the first outcome stays.
unfoldable pub settle : QueueStream → Outcome → QueueStream
settle q o = if is_some q.settled then q else record q { settled = some o; listening = false }

-- The signal is aborted: the listener, where it is still there, closes the websocket.
unfoldable pub abort : QueueStream → QueueStream
unfolding settle
abort q =
    let now = record q { is_aborted = true } in
    if q.is_aborted
    then q
    else if q.listening
    then settle (record now { closes = true }) aborted
    else now

unfoldable pub on_close : QueueStream → QueueStream
unfolding settle
on_close q =
    if q.is_aborted
    then settle q aborted
    else if q.is_assigned
    then settle q resolved
    else settle q (rejected "Search cancelled")

-- `onEvent`, which may throw an error.
unfoldable pub deliver : QueueStream → QueueEvent → Option String → QueueStream
unfolding settle
deliver q e none = record q { delivered = e ∷ q.delivered }
deliver q e (some error) = settle (record q { delivered = e ∷ q.delivered }) (rejected error)

unfoldable pub on_message : QueueStream → QueueData → Option String → QueueStream
unfolding settle deliver
on_message q not_json throws = settle q (rejected "Queue unavailable")
on_message q (value name p) throws =
    if name == "queue_status"
    then deliver q (queue_status (or_text p.status "queueing") p.queued_at) throws
    else if name == "match_assigned"
    then deliver (record q { is_assigned = true })
        (match_assigned (record {
          match_id = or_else p.match_id "";
          node = or_else p.node "";
          ws_path = or_else p.ws_path "";
          ticket = or_else p.ticket "";
          source_lobby_id = some (or_else p.source_lobby_id "");
          source_lobby_invite_code = some (or_else p.source_lobby_invite_code "");
        }))
        throws
    else if name == "queue_error"
    then deliver q (queue_error (or_text p.message "Queue failed")) throws
    else q

pub data StreamEvent : Type 0 where
  aborts errs closes : StreamEvent
  receives : QueueData → Option String → StreamEvent

unfoldable pub step : QueueStream → StreamEvent → QueueStream
unfolding abort settle on_close on_message
step q aborts = abort q
step q errs = settle q (rejected "Queue unavailable")
step q closes = on_close q
step q (receives d throws) = on_message q d throws

unfoldable pub run : QueueStream → List StreamEvent → QueueStream
run q [] = q
run q (e ∷ es) = run (step q e) es
