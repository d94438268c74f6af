-- ===== src/Store/Chats/Cursor.antt =====
-- internal/store/sqlstore.go: the cursors of the list of messages.
use cadenza.Prelude.{
  ℕ, All, ◌+◌, ◌≤◌, ◌<◌, ◌≡◌, refl, String, List, [], ◌∷◌, ◌++◌, map, keep, length, str_eq, arith,
  ok, Bool-cases, inl, inr,
}
use cadenza.Models.Chats.{ChatMessage, MessageRow}
use cadenza.Store.{Db, query}
use cadenza.Store.Chats.{
  list_messages, messages_of, message_of, window, older_than, newer_than, limit_or_default,
}

-- Ids that ascend from above a number.
pub Ascends : ℕ → List ChatMessage → Type 0
Ascends low [] = Unit
Ascends low (m ∷ rows) = (low < m.id) × Ascends m.id rows

-- The ids of the table ascend, and the next one is above them.
unfoldable pub IsNumbered : ℕ → List MessageRow → ℕ → Type 0
IsNumbered low [] next = low < next
IsNumbered low (r ∷ rows) next = (low < r.message.id) × IsNumbered r.message.id rows next

pub Ascends-weaken :
    (low high : ℕ) (rows : List ChatMessage) → low ≤ high → Ascends high rows → Ascends low rows
unfolding Ascends
Ascends-weaken low high [] le h = tt
Ascends-weaken low high (m ∷ rows) le h = (omega (arith, h.0), h.1)

pub messages_of-Ascends :
    (id : String) (low next : ℕ) (rows : List MessageRow)
    → IsNumbered low rows next
    → Ascends low (map message_of (keep (λ (r : MessageRow). str_eq r.session_id id) rows))
unfolding Ascends IsNumbered
messages_of-Ascends id low next [] h = tt
messages_of-Ascends id low next (r ∷ rows) h =
    let rest = messages_of-Ascends id r.message.id next rows h.1 in
    elim (Bool-cases (str_eq r.session_id id)) [
      | inl own ↦ rw own (h.0, rest)
      | inr other ↦ rw other (Ascends-weaken low r.message.id _ (omega (arith, h.0)) rest)
    ]

IsNumbered-lt : (low next : ℕ) (rows : List MessageRow) → IsNumbered low rows next → low < next
unfolding IsNumbered
IsNumbered-lt low next [] h = h
IsNumbered-lt low next (r ∷ rows) (h, more) =
    omega (arith, h, IsNumbered-lt r.message.id next rows more)

pub IsNumbered-below :
    (low next : ℕ) (rows : List MessageRow)
    → IsNumbered low rows next
    → All (λ (r : MessageRow). r.message.id < next) rows
unfolding IsNumbered
IsNumbered-below low next [] h = tt
IsNumbered-below low next (r ∷ rows) (h, more) =
    (IsNumbered-lt r.message.id next rows more, IsNumbered-below r.message.id next rows more)

pub IsNumbered-append :
    (low next : ℕ) (rows : List MessageRow) (r : MessageRow)
    → r.message.id ≡ next
    → IsNumbered low rows next
    → IsNumbered low (rows ++ r ∷ []) (next + 1)
unfolding IsNumbered
IsNumbered-append low next [] r e h = (omega (arith, e, h), omega (arith, e))
IsNumbered-append low next (s ∷ rows) r e h =
    (h.0, IsNumbered-append s.message.id next rows r e h.1)

newer_than-all :
    (cursor low : ℕ) (rows : List ChatMessage)
    → cursor ≤ low
    → Ascends low rows
    → newer_than cursor rows ≡ rows
unfolding Ascends
newer_than-all cursor low [] le h = refl
newer_than-all cursor low (m ∷ rows) le (above, h) =
    ground (arith, newer_than-all cursor m.id rows (omega arith) h)

older_than-none :
    (cursor low : ℕ) (rows : List ChatMessage)
    → cursor ≤ low
    → Ascends low rows
    → older_than cursor rows ≡ []
unfolding Ascends
older_than-none cursor low [] le h = refl
older_than-none cursor low (m ∷ rows) le (above, h) =
    ground (arith, older_than-none cursor m.id rows (omega arith) h)

module _ (y : ChatMessage) (ys : List ChatMessage) where
  pub id_below : (low : ℕ) (xs : List ChatMessage) → Ascends low (xs ++ y ∷ ys) → low < y.id
  unfolding Ascends
  id_below low [] h = h.0
  id_below low (x ∷ xs) h = omega (arith, h.0, id_below x.id xs h.1)

  -- The rows before a message are those with a smaller id, and those after it have a greater one.
  pub older_than-split :
      (low : ℕ) (xs : List ChatMessage)
      → Ascends low (xs ++ y ∷ ys)
      → older_than y.id (xs ++ y ∷ ys) ≡ xs
  unfolding Ascends
  older_than-split low [] h = ground (arith, older_than-none y.id y.id ys (omega arith) h.1)
  older_than-split low (x ∷ xs) h =
      ground (arith, older_than-split x.id xs h.1, id_below x.id xs h.1)

  pub newer_than-split :
      (low : ℕ) (xs : List ChatMessage)
      → Ascends low (xs ++ y ∷ ys)
      → newer_than y.id (xs ++ y ∷ ys) ≡ ys
  unfolding Ascends
  newer_than-split low [] h = ground (arith, newer_than-all y.id y.id ys (omega arith) h.1)
  newer_than-split low (x ∷ xs) h =
      ground (arith, newer_than-split x.id xs h.1, id_below x.id xs h.1)

pub list_messages-quiet :
    (id : String) (before after limit : ℕ) (db : Db)
    → db.disturbances ≡ []
    → list_messages id before after limit db ≡ (
      ok (
        window before after (limit_or_default limit) (messages_of id db),
        length (messages_of id db),
      ),
      db,
    )
unfolding list_messages query
list_messages-quiet id before after limit db quiet = rw quiet refl
