-- ===== src/Socket.antt =====
-- features/matchmaking/lib/gameplay-socket-client.ts: the websocket of a match. The browser's
-- sockets are a store by identity, with the client's flag of each beside its state. An event of a
-- socket returns the handler calls that the client makes, in order.
pub mod Ownership
mod Tests
use geoduels.Base.{
  ℕ, suc, String, Bool, true, false, Option, none, some, List, [], ◌∷◌, if◌then◌else◌, ◌==◌,
  string_eq, nat_eq, is_value, truthy, or_text, ◌||◌,
}
use geoduels.Snapshot.{Snapshot}

-- `WebSocket.OPEN` is `ready`.
pub data ReadyState : Type 0 where
  connecting ready closing closed : ReadyState

pub record ManagedSocket : Type 0 where
  pub ready_state : ReadyState
  pub expected_close : Bool

-- `sockets` holds what is known of each socket that was ever made; `next` is the next identity.
pub record SocketClient : Type 0 where
  pub socket : Option ℕ
  pub sockets : ℕ → ManagedSocket
  pub next : ℕ

pub data HandlerCall : Type 0 where
  on_open : HandlerCall
  on_close : Bool → HandlerCall
  on_error : HandlerCall
  on_activity : HandlerCall
  on_snapshot : Snapshot → HandlerCall
  on_ack_error : String → HandlerCall
  on_protocol_error : HandlerCall

-- What the client reads of a message.
pub record Message : Type 0 where
  pub kind : String
  pub status : String
  pub message : String
  pub error_code : String
  pub type : String
  pub payload : Snapshot
  pub server_ts : Option ℕ

-- The data of a message event: no JSON, the value `null` (on which reading `kind` throws and the
-- handler ends), or a value.
pub data MessageData : Type 0 where
  not_json : MessageData
  null : MessageData
  value : Message → MessageData

unfoldable pub fresh_client : SocketClient
fresh_client = record {
  socket = none;
  sockets = λ i. record { ready_state = closed; expected_close = false };
  next = 0;
}

abbrev pub update {ℓ} : {A : Type ℓ} → (ℕ → A) → ℕ → A → ℕ → A
update f i a j = if i == j then a else f j

-- `close()` on a socket of the browser: an open or a new one starts to close.
abbrev closing_state : ReadyState → ReadyState
closing_state closed = closed
closing_state _ = closing

abbrev pub is_open_state : ReadyState → Bool
is_open_state ready = true
is_open_state _ = false

abbrev pub is_open_or_connecting_state : ReadyState → Bool
is_open_or_connecting_state ready = true
is_open_or_connecting_state connecting = true
is_open_or_connecting_state _ = false

close_current : SocketClient → Bool → Option ℕ → SocketClient
close_current c expected none = c
close_current c expected (some i) = record c {
  socket = none;
  sockets =
      update c.sockets i (record {
        ready_state = closing_state (c.sockets i).ready_state;
        expected_close = expected;
      });
}

unfoldable pub close : SocketClient → Bool → SocketClient
unfolding close_current
close c expected = close_current c expected c.socket

-- `connect`: the old socket is closed as expected, and the new one is the current one.
unfoldable pub connect : SocketClient → SocketClient
unfolding close
connect c =
    let shut = close c true in
    record {
      socket = some shut.next;
      sockets =
          update shut.sockets shut.next
            (record { ready_state = connecting; expected_close = false });
      next = suc shut.next;
    }

is_open_at : SocketClient → Option ℕ → Bool
is_open_at c none = false
is_open_at c (some i) = is_open_state (c.sockets i).ready_state

unfoldable pub is_open : SocketClient → Bool
unfolding is_open_at
is_open c = is_open_at c c.socket

is_open_or_connecting_at : SocketClient → Option ℕ → Bool
is_open_or_connecting_at c none = false
is_open_or_connecting_at c (some i) = is_open_or_connecting_state (c.sockets i).ready_state

unfoldable pub is_open_or_connecting : SocketClient → Bool
unfolding is_open_or_connecting_at
is_open_or_connecting c = is_open_or_connecting_at c c.socket

is_snapshot_type : String → Bool
is_snapshot_type t =
    t == "match.snapshot" || t == "match.state" || t == "match.lifecycle.v2.snapshot"

-- `onmessage` behind its test of the socket.
read_message : MessageData → List HandlerCall
unfolding is_snapshot_type
read_message not_json = on_protocol_error ∷ []
read_message null = []
read_message (value m) =
    if m.kind == "ack"
    then on_activity
      ∷ (if m.status == "error"
          then on_ack_error (or_text m.message (or_text m.error_code "Command failed")) ∷ []
          else [])
    else if m.kind == "event"
    then if is_snapshot_type m.type
      then on_snapshot (elim m.server_ts [
        | none ↦ m.payload
        | some ts ↦ record (m.payload) { server_unix_ms = some ts }
      ])
        ∷ []
      else []
    else []

-- What the browser reports of a socket.
pub data SocketEvent : Type 0 where
  opened : SocketEvent
  errored : SocketEvent
  was_closed : SocketEvent
  received : MessageData → SocketEvent

-- The browser's own change of the socket, before the handler runs.
abbrev settle : SocketEvent → ManagedSocket → ManagedSocket
settle opened s = record s { ready_state = ready }
settle was_closed s = record s { ready_state = closed }
settle _ s = s

-- `onopen`, `onerror`, `onclose` and `onmessage` of socket `i`. A closed socket is reported
-- whichever it is; every other event counts on the current socket only.
unfoldable pub on_event : SocketClient → ℕ → SocketEvent → SocketClient × List HandlerCall
unfolding read_message
on_event c i opened = (
  record c { sockets = update c.sockets i (settle opened (c.sockets i)) },
  if is_value c.socket i then on_open ∷ [] else [],
)
on_event c i errored = (c, if is_value c.socket i then on_error ∷ [] else [])
on_event c i was_closed = (
  record c {
    socket = if is_value c.socket i then none else c.socket;
    sockets = update c.sockets i (settle was_closed (c.sockets i));
  },
  on_close (c.sockets i).expected_close ∷ [],
)
on_event c i (received m) = (c, if is_value c.socket i then read_message m else [])
