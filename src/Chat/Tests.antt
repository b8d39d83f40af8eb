-- ===== src/Chat/Tests.antt =====
-- A chat that is opened, hears a message and is switched to another conversation.
use geoduels.Base.{
  ◌≡◌, ◌≢◌, ◌≤◌, refl, String, none, some, [], ◌∷◌, ◌++◌, inr, length, All, false, true, trim,
}
use geoduels.Socket.{connecting, ready}
use geoduels.Chat.Client.{
  ChatMessage, chat_history, chat_message, text, skull, chat_send, send_message, send_emote,
}
use geoduels.Chat.{
  ChatController, new_controller, initial_state, set_conversation, on_event, receive,
  store_messages, patch_state, close_connection, reconnect, show_conversation, cached,
  send_message_body, send_emote_of,
}
use geoduels.Chat.Shown.{start, happens, sets, event, step, shown_messages_lem}
use geoduels.Chat.Messages.{recent_others, new_message_stands_last}

abbrev message : String → String → ChatMessage
message id conversation = record {
  id = id;
  conversation_id = some conversation;
  match_id = "";
  sender_user_id = "u";
  sender_display_name = "U";
  kind = text;
  body = some "hi";
  emote = none;
  created_at = "";
}

abbrev opened_chat : ChatController
opened_chat = step new_controller (sets " lobby:1 " "token")

abbrev of_lobby : ChatController
of_lobby =
    step opened_chat
      (event 0 (chat_history "lobby:1" (message "a" "lobby:1" ∷ message "b" "lobby:1" ∷ [])))

-- The old connection's late message is not shown, and the first conversation is shown again from
-- the cache.
abbrev switched : ChatController
switched =
    step
      (step (step of_lobby (sets "match:2" "token"))
        (event 0 (chat_message (message "c" "lobby:1"))))
      (sets "lobby:1" "token")

switched_messages : switched.state.messages ≡ message "a" "lobby:1" ∷ message "b" "lobby:1" ∷ []
unfolding step set_conversation on_event receive store_messages patch_state close_connection
    reconnect show_conversation new_controller initial_state trim
switched_messages = refl

abbrev IsTagged : String → ChatMessage → Type 0
IsTagged k m = m.conversation_id ≡ some k

shown_messages_lem_example :
    (switched.state.messages ≡ cached switched switched.state.conversation_id)
    × All (IsTagged switched.state.conversation_id) switched.state.messages
    × (length switched.state.messages ≤ 100)
unfolding step set_conversation on_event receive store_messages patch_state close_connection
    reconnect show_conversation new_controller initial_state trim
shown_messages_lem_example = shown_messages_lem IsTagged (
    happens (sets "lobby:1" "token")
      (happens (event 0 (chat_message (message "c" "lobby:1")))
        (happens (sets "match:2" "token")
          (happens
            (event 0 (chat_history "lobby:1" (message "a" "lobby:1" ∷ message "b" "lobby:1" ∷ [])))
            (happens (sets " lobby:1 " "token") (start refl) tt) (refl, (refl, tt)))
          tt)
        refl)
      tt)

-- The message "a" comes again, and stands last.
new_message_stands_last_example :
    ((on_event of_lobby 0 (chat_message (message "a" "lobby:1"))).state.messages
      ≡ recent_others "a" (cached of_lobby "lobby:1") ++ (message "a" "lobby:1" ∷ []))
    × All (λ (o : ChatMessage). o.id ≢ "a") (recent_others "a" (cached of_lobby "lobby:1"))
    × (length (recent_others "a" (cached of_lobby "lobby:1")) ≤ 99)
unfolding step set_conversation on_event receive store_messages patch_state close_connection
    reconnect show_conversation new_controller initial_state trim
new_message_stands_last_example =
    new_message_stands_last of_lobby 0 (message "a" "lobby:1") refl refl (inr refl)

sends_trimmed : send_message_body of_lobby ready "  hello " ≡ (true, chat_send "hello" ∷ [])
unfolding send_message_body step set_conversation on_event receive store_messages patch_state
    close_connection reconnect show_conversation new_controller initial_state trim send_message
sends_trimmed = refl

not_open_yet : send_emote_of of_lobby connecting skull ≡ (false, [])
unfolding send_emote_of step set_conversation on_event receive store_messages patch_state
    close_connection reconnect show_conversation new_controller initial_state trim send_emote
not_open_yet = refl
