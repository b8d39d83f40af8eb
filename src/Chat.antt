-- ===== src/Chat.antt =====
-- features/chat/controllers/chat-controller.ts and features/chat/lib/chat-client.ts: the chat of a
-- conversation. A connection is known by its number; `conversations` is what each one's handler
-- was closed over.
pub mod Client
pub mod Shown
pub mod Messages
mod Tests
use Prim.Native.String.{◌++◌ as ◌<>◌}
use geoduels.Base.{
  ℕ, suc, String, Bool, true, false, Option, none, some, List, [], ◌∷◌, ◌++◌, if◌then◌else◌, ◌==◌,
  string_eq, nat_eq, is_some, is_value, truthy, or_else, not, ◌&&◌, ◌||◌, trim, drop, length, ◌-◌,
}
use geoduels.Chat.Client.{
  ChatMessage, ChatEmote, ChatEvent, chat_history, chat_message, chat_error, Sent, send_message,
  send_emote,
}
use geoduels.Socket.{ReadyState}

pub record ChatRuntimeState : Type 0 where
  pub conversation_id : String
  pub messages : List ChatMessage
  pub error : String

unfoldable pub initial_state : ChatRuntimeState
initial_state = record { conversation_id = ""; messages = []; error = "" }

-- What the controller does to the outside, the latest first.
pub data ChatEffect : Type 0 where
  connects : ℕ → String → String → ChatEffect
  closes : ℕ → ChatEffect
  plays : String → ChatEffect
  emits : ChatRuntimeState → ChatEffect

-- `next` is the number of the next connection.
pub record ChatController : Type 0 where
  pub state : ChatRuntimeState
  pub connection : Option ℕ
  pub connection_key : String
  pub messages_by_conversation : String → Option (List ChatMessage)
  pub destroyed : Bool
  pub next : ℕ
  pub conversations : ℕ → String
  pub log : List ChatEffect

unfoldable pub new_controller : ChatController
unfolding initial_state
new_controller = record {
  state = initial_state;
  connection = none;
  connection_key = "";
  messages_by_conversation = λ k. none;
  destroyed = false;
  next = 0;
  conversations = λ i. "";
  log = [];
}

unfoldable pub patch_state : ChatController → ChatRuntimeState → ChatController
patch_state c s = record c { state = s; log = if c.destroyed then c.log else emits s ∷ c.log }

unfoldable pub close_connection : ChatController → ChatController
close_connection c = record c {
  connection = none;
  log = elim c.connection [ none ↦ c.log | some i ↦ closes i ∷ c.log ];
}

unfoldable pub destroy : ChatController → ChatController
unfolding close_connection
destroy c = close_connection (record c { destroyed = true })

unfoldable pub reset : ChatController → ChatController
unfolding close_connection patch_state initial_state
reset c =
    let shut = close_connection c in
    patch_state (record shut { connection_key = ""; messages_by_conversation = λ k. none })
      initial_state

-- The messages of a conversation, none of them where the map has no entry.
abbrev pub cached : ChatController → String → List ChatMessage
cached c k = or_else (c.messages_by_conversation k) []

-- The last hundred of some messages: `slice(-100)`.
abbrev pub last_hundred : List ChatMessage → List ChatMessage
last_hundred ms = drop (length ms - 100) ms

unfoldable pub store_messages : ChatController → String → List ChatMessage → ChatController
unfolding patch_state
store_messages c id messages =
    let next = last_hundred messages in
    let stored = record c {
      messages_by_conversation = λ k. if id == k then some next else c.messages_by_conversation k;
    } in
    if c.state.conversation_id == id
    then patch_state stored (record (c.state) { messages = next })
    else stored

-- `setConversation`'s last part: the old connection is closed, and a new one is made.
unfoldable pub reconnect : ChatController → String → String → ChatController
unfolding close_connection
reconnect c id token =
    let shut = close_connection c in
    record shut {
      connection = some shut.next;
      connection_key = id <> (":" <> token);
      next = suc shut.next;
      conversations = λ i. if shut.next == i then id else shut.conversations i;
      log = connects shut.next id token ∷ shut.log;
    }

-- `setConversation`'s first part: a conversation that is not shown yet is shown as it is cached.
unfoldable pub show_conversation : ChatController → String → ChatController
unfolding patch_state
show_conversation c id =
    if c.state.conversation_id == id
    then c
    else patch_state c (record { conversation_id = id; messages = cached c id; error = "" })

unfoldable pub set_conversation : ChatController → String → String → ChatController
unfolding close_connection patch_state reconnect show_conversation initial_state
set_conversation c conversation token =
    let id = trim conversation in
    let shown = show_conversation c id in
    if not (truthy id) || not (truthy token)
    then patch_state (record (close_connection c) { connection_key = "" }) initial_state
    else if c.connection_key == (id <> (":" <> token)) && is_some c.connection
    then shown
    else reconnect shown id token

-- The messages without those of an id.
abbrev pub without : String → List ChatMessage → List ChatMessage
without id [] = []
without id (m ∷ ms) = if m.id == id then without id ms else m ∷ without id ms

-- An event of the current connection, which is to the conversation `id`.
unfoldable pub receive : ChatController → String → ChatEvent → ChatController
unfolding store_messages patch_state
receive c id (chat_history conversation messages) =
    if conversation == id then store_messages c id messages else c
receive c id (chat_message m) =
    let stored = store_messages c id (last_hundred (without m.id (cached c id) ++ (m ∷ []))) in
    if truthy (or_else m.conversation_id "") && not (or_else m.conversation_id "" == id)
    then c
    else record stored { log = plays "chat" ∷ stored.log }
receive c id (chat_error text) = patch_state c (record (c.state) { error = text })

-- The callback of connection `i`.
unfoldable pub on_event : ChatController → ℕ → ChatEvent → ChatController
unfolding receive
on_event c i e = if is_value c.connection i then receive c (c.conversations i) e else c

-- `sendMessage`, with the state of the current connection's socket: whether it was sent, and what.
unfoldable pub send_message_body : ChatController → ReadyState → String → Bool × List Sent
unfolding send_message
send_message_body c socket body =
    if not (truthy (trim body))
      || not (truthy c.state.conversation_id)
      || not (is_some c.connection)
    then (false, [])
    else send_message socket (trim body)

unfoldable pub send_emote_of : ChatController → ReadyState → ChatEmote → Bool × List Sent
unfolding send_emote
send_emote_of c socket e =
    if not (truthy c.state.conversation_id) || not (is_some c.connection)
    then (false, [])
    else send_emote socket e
