-- ===== src/Chat/Shown.antt =====
-- features/chat/controllers/chat-controller.ts: what the chat shows of a conversation.
use Prim.Native.String.{◌++◌ as ◌<>◌}
use geoduels.Base.{
  subst, ℕ, ◌≤◌, ◌≡◌, refl, sym, String, true, false, none, some, List, [], ◌∷◌, ◌++◌, arith,
  if◌then◌else◌, ◌==◌, string_eq, nat_eq, truthy, or_else, eq_iff, trim, length, length-drop, ◌-◌,
  All, All-append, All-drop, Bool-cases, inl, inr, is_value, not, ◌||◌, ◌&&◌, is_some,
}
use geoduels.Chat.Client.{ChatMessage, ChatEvent, chat_history, chat_message, chat_error}
use geoduels.Chat
use geoduels.Chat.{
  plays, ChatController, ChatRuntimeState, initial_state, new_controller, patch_state,
  close_connection, cached, last_hundred, store_messages, reconnect, show_conversation, without,
  receive, on_event,
}

-- What can happen to a controller.
pub data ChatCall : Type 0 where
  sets : String → String → ChatCall
  resets destroys : ChatCall
  event : ℕ → ChatEvent → ChatCall

unfoldable pub step : ChatController → ChatCall → ChatController
unfolding Chat.set_conversation Chat.reset Chat.destroy on_event
step c (sets conversation token) = Chat.set_conversation c conversation token
step c resets = Chat.reset c
step c destroys = Chat.destroy c
step c (event i e) = on_event c i e

module _ (P : String → ChatMessage → Type 0) where
  -- `P` says which messages are of a conversation, and the event carries only such: a message is of
  -- the one that it names, and else of the connection's.
  abbrev pub Carries : String → ChatEvent → Type 0
  Carries id (chat_history conversation ms) = All (P conversation) ms
  Carries id (chat_message m) =
      P (if truthy (or_else m.conversation_id "") then or_else m.conversation_id "" else id) m
  Carries id (chat_error text) = Unit

  abbrev pub IsGenuine : ChatController → ChatCall → Type 0
  IsGenuine c (event i e) = Carries (c.conversations i) e
  IsGenuine c _ = Unit

  pub data Reach : ChatController → Type 0 where
    start : {c : ChatController} → c ≡ new_controller → Reach c
    happens :
        {c : ChatController} (call : ChatCall) → Reach c → IsGenuine c call → Reach (step c call)

  -- The shown messages are the cached ones; every cached message is of its conversation, of which at
  -- most a hundred are kept; no connection is to the conversation without a name.
  pub record IsConsistent (c : ChatController) : Type 0 where
    pub shown : c.state.messages ≡ cached c c.state.conversation_id
    pub of_conversation : (k : String) → All (P k) (cached c k)
    pub bounded : (k : String) → length (cached c k) ≤ 100
    pub unnamed : c.messages_by_conversation "" ≡ none
    pub named : (i : ℕ) → c.connection ≡ some i → truthy (c.conversations i) ≡ true

  new_controller-IsConsistent : IsConsistent new_controller
  unfolding new_controller initial_state
  new_controller-IsConsistent = record {
    shown = refl;
    of_conversation = λ k. tt;
    bounded = λ k. omega arith;
    unnamed = refl;
    named = λ i h. grind arith;
  }

  All-without : (id k : String) (ms : List ChatMessage) → All (P k) ms → All (P k) (without id ms)
  All-without id k [] h = tt
  All-without id k (m ∷ ms) (p, h) = elim (Bool-cases (m.id == id)) [
    | inl t ↦ rw t (All-without id k ms h)
    | inr f ↦ rw f (p, All-without id k ms h)
  ]

  stored_of_conversation :
      (c : ChatController) (id k : String) (ms : List ChatMessage)
      → All (P k) (cached c k)
      → All (P id) ms
      → All
          (P k)
          (or_else (if id == k then some (last_hundred ms) else c.messages_by_conversation k) [])
  stored_of_conversation c id k ms old all = elim (Bool-cases (id == k)) [
    | inl same ↦ rw (same, sym ((eq_iff id k).0 same)) (All-drop (P id) (length ms - 100) ms all)
    | inr other ↦ rw other old
  ]

  store_messages-IsConsistent :
      (c : ChatController) (id : String) (ms : List ChatMessage)
      → IsConsistent c
      → truthy id ≡ true
      → All (P id) ms
      → IsConsistent (store_messages c id ms)
  unfolding store_messages patch_state
  store_messages-IsConsistent c id ms v id_named all =
      elim (Bool-cases (c.state.conversation_id == id)) [
        | inl same ↦ rw same (record {
          shown =
              grind (arith, eq_iff c.state.conversation_id id, eq_iff id c.state.conversation_id);
          of_conversation = λ k. stored_of_conversation c id k ms (v.of_conversation k) all;
          bounded = λ k. grind (arith, length-drop (length ms - 100) ms, v.bounded k);
          unnamed = grind (arith, v.unnamed, eq_iff id "");
          named = v.named;
        })
        | inr other ↦ rw other (record {
          shown = grind (
            arith,
            v.shown,
            eq_iff c.state.conversation_id id,
            eq_iff id c.state.conversation_id,
          );
          of_conversation = λ k. stored_of_conversation c id k ms (v.of_conversation k) all;
          bounded = λ k. grind (arith, length-drop (length ms - 100) ms, v.bounded k);
          unnamed = grind (arith, v.unnamed, eq_iff id "");
          named = v.named;
        })
      ]

  close_connection-IsConsistent :
      (c : ChatController) → IsConsistent c → IsConsistent (close_connection c)
  unfolding close_connection
  close_connection-IsConsistent c v = record {
    shown = v.shown;
    of_conversation = v.of_conversation;
    bounded = v.bounded;
    unnamed = v.unnamed;
    named = λ i h. grind arith;
  }

  reset-IsConsistent : (c : ChatController) → IsConsistent c → IsConsistent (Chat.reset c)
  unfolding Chat.reset close_connection patch_state initial_state
  reset-IsConsistent c v = record {
    shown = refl;
    of_conversation = λ k. tt;
    bounded = λ k. omega arith;
    unnamed = refl;
    named = λ i h. grind arith;
  }

  show_conversation-IsConsistent :
      (c : ChatController) (id : String) → IsConsistent c → IsConsistent (show_conversation c id)
  unfolding show_conversation patch_state
  show_conversation-IsConsistent c id v = elim (Bool-cases (c.state.conversation_id == id)) [
    | inl same ↦ rw same v
    | inr other ↦ rw other (record {
      shown = refl;
      of_conversation = v.of_conversation;
      bounded = v.bounded;
      unnamed = v.unnamed;
      named = v.named;
    })
  ]

  reconnect-IsConsistent :
      (c : ChatController) (id token : String)
      → IsConsistent c
      → truthy id ≡ true
      → IsConsistent (reconnect c id token)
  unfolding reconnect close_connection
  reconnect-IsConsistent c id token v id_named = record {
    shown = v.shown;
    of_conversation = v.of_conversation;
    bounded = v.bounded;
    unnamed = v.unnamed;
    named = λ i h. grind arith;
  }

  leave-IsConsistent :
      (c : ChatController)
      → IsConsistent c
      → IsConsistent
          (patch_state (record (close_connection c) { connection_key = "" }) initial_state)
  unfolding close_connection patch_state initial_state
  leave-IsConsistent c v = record {
    shown = grind (arith, v.unnamed);
    of_conversation = v.of_conversation;
    bounded = v.bounded;
    unnamed = v.unnamed;
    named = λ i h. grind arith;
  }

  set_valid-IsConsistent :
      (c : ChatController) (id token : String)
      → IsConsistent c
      → truthy id ≡ true
      → IsConsistent (
          if c.connection_key == (id <> (":" <> token)) && is_some c.connection
          then show_conversation c id
          else reconnect (show_conversation c id) id token)
  set_valid-IsConsistent c id token v id_named =
      let shown = show_conversation-IsConsistent c id v in
      elim (Bool-cases (c.connection_key == (id <> (":" <> token)) && is_some c.connection)) [
        | inl same ↦ rw same shown
        | inr other ↦
            rw other (reconnect-IsConsistent (show_conversation c id) id token shown id_named)
      ]

  set_conversation-IsConsistent :
      (c : ChatController) (conversation token : String)
      → IsConsistent c
      → IsConsistent (Chat.set_conversation c conversation token)
  unfolding Chat.set_conversation
  set_conversation-IsConsistent c conversation token v =
      let id = trim conversation in
      elim (Bool-cases (not (truthy id) || not (truthy token))) [
        | inl gone ↦ rw gone (leave-IsConsistent c v)
        | inr valid ↦ rw valid (set_valid-IsConsistent c id token v (ground arith))
      ]

  destroy-IsConsistent : (c : ChatController) → IsConsistent c → IsConsistent (Chat.destroy c)
  unfolding Chat.destroy close_connection
  destroy-IsConsistent c v = record {
    shown = v.shown;
    of_conversation = v.of_conversation;
    bounded = v.bounded;
    unnamed = v.unnamed;
    named = λ i h. grind arith;
  }

  error-IsConsistent :
      (c : ChatController) (text : String)
      → IsConsistent c
      → IsConsistent (patch_state c (record (c.state) { error = text }))
  unfolding patch_state
  error-IsConsistent c text v = record {
    shown = v.shown;
    of_conversation = v.of_conversation;
    bounded = v.bounded;
    unnamed = v.unnamed;
    named = v.named;
  }

  plays-IsConsistent :
      {c : ChatController} {name : String}
      → IsConsistent c
      → IsConsistent (record c { log = plays name ∷ c.log })
  plays-IsConsistent v = record {
    shown = v.shown;
    of_conversation = v.of_conversation;
    bounded = v.bounded;
    unnamed = v.unnamed;
    named = v.named;
  }

  own_tag :
      (tag id : String)
      → (truthy tag && not (tag == id)) ≡ false
      → (if truthy tag then tag else id) ≡ id
  own_tag tag id h = elim (Bool-cases (truthy tag)) [
    | inl named ↦ rw named ((eq_iff tag id).0 (ground arith))
    | inr missing ↦ rw missing refl
  ]

  added_of_conversation :
      (c : ChatController) (id : String) (m : ChatMessage)
      → IsConsistent c
      → P id m
      → All (P id) (last_hundred (without m.id (cached c id) ++ (m ∷ [])))
  added_of_conversation c id m v p =
      let others = without m.id (cached c id) in
      let all = All-without m.id id (cached c id) (v.of_conversation id) in
      All-drop (P id) (length (others ++ (m ∷ [])) - 100) (others ++ (m ∷ []))
        (All-append (P id) others (m ∷ []) all (p, tt))

  receive-IsConsistent :
      (c : ChatController) (id : String) (e : ChatEvent)
      → IsConsistent c
      → truthy id ≡ true
      → Carries id e
      → IsConsistent (receive c id e)
  unfolding receive
  receive-IsConsistent c id (chat_history conversation ms) v id_named g =
      elim (Bool-cases (conversation == id)) [
        | inl same ↦ rw same (
            store_messages-IsConsistent c id ms v id_named
              (subst (λ k. All (P k) ms) ((eq_iff conversation id).0 same) g))
        | inr other ↦ rw other v
      ]
  receive-IsConsistent c id (chat_message m) v id_named g =
      let tag = or_else m.conversation_id "" in
      elim (Bool-cases (truthy tag && not (tag == id))) [
        | inl other ↦ rw other v
        | inr own ↦ rw own (
            plays-IsConsistent (
              store_messages-IsConsistent c id _ v id_named
                (added_of_conversation c id m v (subst (λ k. P k m) (own_tag tag id own) g))))
      ]
  receive-IsConsistent c id (chat_error text) v id_named g = error-IsConsistent c text v

  on_event-IsConsistent :
      (c : ChatController) (i : ℕ) (e : ChatEvent)
      → IsConsistent c
      → Carries (c.conversations i) e
      → IsConsistent (on_event c i e)
  unfolding on_event
  on_event-IsConsistent c i e v g = elim (Bool-cases (is_value c.connection i)) [
    | inl current ↦
        rw current (receive-IsConsistent c (c.conversations i) e v (v.named i (ground arith)) g)
    | inr stale ↦ rw stale v
  ]

  step-IsConsistent :
      (c : ChatController) (call : ChatCall)
      → IsConsistent c
      → IsGenuine c call
      → IsConsistent (step c call)
  unfolding step
  step-IsConsistent c (sets conversation token) v g =
      set_conversation-IsConsistent c conversation token v
  step-IsConsistent c resets v g = reset-IsConsistent c v
  step-IsConsistent c destroys v g = destroy-IsConsistent c v
  step-IsConsistent c (event i e) v g = on_event-IsConsistent c i e v g

  Reach-IsConsistent : {c : ChatController} → Reach c → IsConsistent c
  Reach-IsConsistent (start e) = subst IsConsistent (sym e) new_controller-IsConsistent
  Reach-IsConsistent (happens {c} call r g) = step-IsConsistent c call (Reach-IsConsistent r) g

  -- For a chat controller that any calls and events of old and new connections lead to, where each
  -- event carries only messages of the conversation it names: the shown messages are the cached
  -- ones of the shown conversation, each is of that conversation, and at most a hundred are shown.
  pub shown_messages_lem :
      {c : ChatController}
      → Reach c
      → (c.state.messages ≡ cached c c.state.conversation_id)
        × All (P c.state.conversation_id) c.state.messages
        × (length c.state.messages ≤ 100)
  shown_messages_lem {c} r =
      let v = Reach-IsConsistent r in
      let id = c.state.conversation_id in
      (
        v.shown,
        subst (λ ms. All (P id) ms) (sym v.shown) (v.of_conversation id),
        subst (λ ms. length ms ≤ 100) (sym v.shown) (v.bounded id),
      )
