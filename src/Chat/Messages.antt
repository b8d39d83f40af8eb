-- ===== src/Chat/Messages.antt =====
-- features/chat/controllers/chat-controller.ts: what a new message does to the conversation.
use geoduels.Base.{
  ℕ, ◌≤◌, ◌≡◌, ◌≢◌, refl, String, true, false, Option, none, some, List, [], ◌∷◌, ◌++◌, arith, ◌==◌,
  string_eq, nat_eq, or_else, eq_iff, length, drop, length-drop, length-append, ◌-◌, All, All-drop,
  Bool-cases, inl, inr, ◌⊎◌, suc, zero, is_value, truthy, not, ◌&&◌, subst, ap, sym, ◌∙◌,
}
use geoduels.Chat.Client.{ChatMessage, ChatEvent, chat_message}
use geoduels.Chat.{
  ChatController, patch_state, cached, last_hundred, store_messages, without, receive, on_event,
}

without-All :
    (id : String) (ms : List ChatMessage) → All (λ (m : ChatMessage). m.id ≢ id) (without id ms)
without-All id [] = tt
without-All id (m ∷ ms) = elim (Bool-cases (m.id == id)) [
  | inl same ↦ rw same (without-All id ms)
  | inr other ↦ rw other ((λ e. grind (arith, (eq_iff m.id id).1 e)), without-All id ms)
]

-- Of some messages and one more, the last hundred are at most 99 of them and that one.
drop-append_last :
    (n : ℕ) (ms : List ChatMessage) (m : ChatMessage)
    → n ≤ length ms
    → drop n (ms ++ (m ∷ [])) ≡ drop n ms ++ (m ∷ [])
drop-append_last zero ms m h = refl
drop-append_last (suc n) [] m h = grind arith
drop-append_last (suc n) (x ∷ ms) m h = drop-append_last n ms m (omega arith)

last_hundred-append :
    (ms : List ChatMessage) (m : ChatMessage)
    → last_hundred (ms ++ (m ∷ [])) ≡ drop (length ms - 99) ms ++ (m ∷ [])
last_hundred-append ms m =
    ap (λ n. drop n (ms ++ (m ∷ []))) (omega (arith, length-append ms (m ∷ [])))
    ∙ drop-append_last (length ms - 99) ms m (omega arith)

last_hundred_twice : (ms : List ChatMessage) → last_hundred (last_hundred ms) ≡ last_hundred ms
last_hundred_twice ms =
    let none_left : length (last_hundred ms) - 100 ≡ 0 =
      omega (arith, length-drop (length ms - 100) ms) in
    ap (λ n. drop n (last_hundred ms)) none_left

-- The messages of other ids that stay: the last 99 of them.
abbrev pub recent_others : String → List ChatMessage → List ChatMessage
recent_others id ms = drop (length (without id ms) - 99) (without id ms)

own_message :
    (tag : Option String) (id : String)
    → (tag ≡ none) ⊎ (tag ≡ some id)
    → (truthy (or_else tag "") && not (or_else tag "" == id)) ≡ false
own_message tag id (inl missing) = rw missing refl
own_message tag id (inr own) = rw own (ground (arith, (eq_iff id id).1 refl))

messages-store_messages :
    (c : ChatController) (id : String) (ms : List ChatMessage)
    → c.state.conversation_id ≡ id
    → (store_messages c id ms).state.messages ≡ last_hundred ms
unfolding store_messages patch_state
messages-store_messages c id ms shown = rw ((eq_iff c.state.conversation_id id).1 shown) refl

messages-receive :
    (c : ChatController) (id : String) (m : ChatMessage)
    → c.state.conversation_id ≡ id
    → (m.conversation_id ≡ none) ⊎ (m.conversation_id ≡ some id)
    → (receive c id (chat_message m)).state.messages ≡ recent_others m.id (cached c id) ++ (m ∷ [])
unfolding receive
messages-receive c id m shown own =
    let added = without m.id (cached c id) ++ (m ∷ []) in
    rw (own_message m.conversation_id id own) (
      messages-store_messages c id (last_hundred added) shown
      ∙ last_hundred_twice added
      ∙ last_hundred-append (without m.id (cached c id)) m)

current_receives :
    (c : ChatController) (i : ℕ) (e : ChatEvent)
    → c.connection ≡ some i
    → on_event c i e ≡ receive c (c.conversations i) e
unfolding on_event
current_receives c i e current =
    rw (subst (λ o. is_value o i ≡ true) (sym current) (ground arith)) refl

-- A new message that the connection of the shown conversation delivers, and that names no
-- conversation or that one, stands last, behind the last at most 99 of the cached messages with
-- another id.
pub new_message_stands_last :
    (c : ChatController) (i : ℕ) (m : ChatMessage)
    → c.connection ≡ some i
    → c.state.conversation_id ≡ c.conversations i
    → (m.conversation_id ≡ none) ⊎ (m.conversation_id ≡ some (c.conversations i))
    → ((on_event c i (chat_message m)).state.messages
        ≡ recent_others m.id (cached c (c.conversations i)) ++ (m ∷ []))
      × All (λ (o : ChatMessage). o.id ≢ m.id) (recent_others m.id (cached c (c.conversations i)))
      × (length (recent_others m.id (cached c (c.conversations i))) ≤ 99)
new_message_stands_last c i m current shown own =
    let id = c.conversations i in
    let others = without m.id (cached c id) in
    (
      ap (λ (d : ChatController). d.state.messages) (current_receives c i (chat_message m) current)
          ∙ messages-receive c id m shown own,
      All-drop (λ (o : ChatMessage). o.id ≢ m.id) (length others - 99) others
          (without-All m.id (cached c id)),
      omega (arith, length-drop (length others - 99) others),
    )
