-- ===== src/Chat/Client.antt =====
-- features/chat/lib/chat-client.ts: the websocket of a conversation, and the messages on it
-- (components/ui/types.ts).
use geoduels.Base.{
  String, Bool, true, false, Option, none, some, List, [], ◌∷◌, if◌then◌else◌, ◌==◌, string_eq,
  or_else, or_text,
}
use geoduels.Socket.{ReadyState, is_open_state}

pub data ChatEmote : Type 0 where
  skull sob thinking sunglasses : ChatEmote

pub data ChatKind : Type 0 where
  text emote : ChatKind

pub record ChatMessage : Type 0 where
  pub id : String
  pub conversation_id : Option String
  pub match_id : String
  pub sender_user_id : String
  pub sender_display_name : String
  pub kind : ChatKind
  pub body : Option String
  pub emote : Option ChatEmote
  pub created_at : String

pub data ChatEvent : Type 0 where
  chat_history : String → List ChatMessage → ChatEvent
  chat_message : ChatMessage → ChatEvent
  chat_error : String → ChatEvent

-- The payload as the client reads it: a conversation id that is a text, messages that are an
-- array, the payload as a message, and its `message`, empty where it is missing.
pub record ChatPayload : Type 0 where
  pub conversation_id : Option String
  pub messages : Option (List ChatMessage)
  pub chat : ChatMessage
  pub message : String

-- The data of a message event: no JSON, or a value with its `type`.
pub data ChatData : Type 0 where
  not_json : ChatData
  value : String → ChatPayload → ChatData

unfoldable pub read_message : String → ChatData → Option ChatEvent
read_message conversation not_json = some (chat_error "Chat connection failed")
read_message conversation (value type payload) =
    if type == "chat.history"
    then some
        (chat_history (or_else payload.conversation_id conversation) (or_else payload.messages []))
    else if type == "chat.message"
    then some (chat_message payload.chat)
    else if type == "chat.error"
    then some (chat_error (or_text payload.message "Chat unavailable"))
    else none

-- A text that the client puts on the socket.
pub data Sent : Type 0 where
  chat_send : String → Sent
  chat_emote : ChatEmote → Sent

send : ReadyState → Sent → Bool × List Sent
send state sent = if is_open_state state then (true, sent ∷ []) else (false, [])

unfoldable pub send_message : ReadyState → String → Bool × List Sent
unfolding send
send_message state body = send state (chat_send body)

unfoldable pub send_emote : ReadyState → ChatEmote → Bool × List Sent
unfolding send
send_emote state e = send state (chat_emote e)
