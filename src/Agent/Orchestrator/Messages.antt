-- ===== src/Agent/Orchestrator/Messages.antt =====
-- internal/agent/orchestrator.go: the messages that a chat begins with.
use cadenza.Prelude.{
  ℕ, zero, suc, ◌-◌, ◌≤◌, String, ◌≡◌, refl, ◌⊎◌, inl, inr, Bool, List, [], ◌∷◌, ◌++◌, length, take,
  drop, ltb, map, keep, ap, ◌||◌, Bool-cases, str_eq, if◌then◌else◌, arith,
}
use cadenza.Models.Chats.{ChatMessage, ChatSession}
use cadenza.Agent.Orchestrator.{
  Message, system, user, assistant, max_history, recent, history, plain_message, build_messages,
}

-- The messages of a chat up to some point, and those from there on, which the model is shown.
pub record Window (rows shown : List ChatMessage) : Type 0 where
  pub older : List ChatMessage
  pub all : older ++ shown ≡ rows
  pub bounded : length shown ≤ max_history
  pub last_ones : (older ≡ []) ⊎ (length shown ≡ max_history)

take-drop : (n : ℕ) (rows : List ChatMessage) → take n rows ++ drop n rows ≡ rows
take-drop zero rows = refl
take-drop (suc n) [] = refl
take-drop (suc n) (m ∷ rows) = ground (arith, take-drop n rows)

length-drop : (n : ℕ) (rows : List ChatMessage) → length (drop n rows) ≡ length rows - n
length-drop zero rows = omega arith
length-drop (suc n) [] = omega arith
length-drop (suc n) (m ∷ rows) = omega (arith, length-drop n rows)

recent-Window : (rows : List ChatMessage) → Window rows (recent rows)
unfolding recent
recent-Window rows = elim (Bool-cases (ltb max_history (length rows))) [
  | inl long ↦
      rw (long, if◌then◌else◌)
        (record {
          older = take (length rows - max_history) rows;
          all = take-drop (length rows - max_history) rows;
          bounded = ground (arith, length-drop (length rows - max_history) rows);
          last_ones = inr (ground (arith, length-drop (length rows - max_history) rows));
        })
  | inr short ↦
      rw (short, if◌then◌else◌)
        (record { older = []; all = refl; bounded = ground arith; last_ones = inl refl })
]

-- A stored message that the model is shown, and what it is shown.
abbrev pub speaks : ChatMessage → Bool
speaks m = str_eq m.role "user" || str_eq m.role "assistant"

abbrev pub spoken : ChatMessage → Message
spoken m = plain_message (if str_eq m.role "user" then user else assistant) m.content

history-map : (rows : List ChatMessage) → history rows ≡ map spoken (keep speaks rows)
unfolding history
history-map [] = refl
history-map (m ∷ rows) = ground (arith, history-map rows)

-- The model is shown the system prompt, then of the last 20 messages of the session, or of all
-- where there are no more, those of the user and of the assistant in their order, and at the end
-- the new message of the user.
pub build_messages-Window :
    (prompt : String) (sess : ChatSession) (message : String)
    → (shown : List ChatMessage) × Window sess.messages shown
      × (build_messages prompt sess message
          ≡ plain_message system prompt
            ∷ (map spoken (keep speaks shown) ++ plain_message user message ∷ []))
unfolding build_messages
build_messages-Window prompt sess message = (
  recent sess.messages,
  recent-Window sess.messages,
  ap (λ l. plain_message system prompt ∷ (l ++ plain_message user message ∷ []))
      (history-map (recent sess.messages)),
)
