-- ===== src/Store/Chats.antt =====
-- internal/store/sqlstore.go: sessions and their messages. The rows of messages stand in the order
-- of their ids. A negative cursor or limit is passed as 0, which the source treats alike.
pub mod Cursor
pub mod Appends
pub mod History
use Prim.Native.Nat.{lt, eq, compare}
use Prim.Native.String.{String}
use cadenza.Prelude.{
  ℕ, zero, suc, ◌+◌, ◌-◌, ◌*◌, ◌/◌, ◌%◌, ◌^◌, max, Bool, true, false, not, ◌&&◌, ◌||◌, List, [],
  ◌∷◌, ◌++◌, map, Option, none, some, on_some, Exec, ◌>>=◌, pure, take, keep, find, length, str_eq,
  ltb, ◌==◌, if◌then◌else◌, Bytes,
}
use cadenza.Models.Chats.{ChatMessage, ChatSession, SessionSummary, MessageRow}
use cadenza.Store.{Db, Error, Statement, query, or_not_found, as_error, exec_once, exec_ctx}
use cadenza.Store.Pages.{page_of}
use mathlib.Core.List.{reverse}

abbrev pub session_key : ChatSession → String
session_key s = s.id

abbrev pub insert_session : ChatSession → Statement
insert_session s db = elim (find session_key s.id db.sessions) [
  | none ↦ some (record db { sessions = db.sessions ++ record s { messages = [] } ∷ [] })
  | some _ ↦ none
]

unfoldable pub create_session : ChatSession → Exec Db Error (Unit {0})
create_session s db = as_error (exec_once (insert_session s) db)

abbrev pub message_of : MessageRow → ChatMessage
message_of r = r.message

abbrev pub messages_of : String → Db → List ChatMessage
messages_of id db = map message_of (keep (λ (r : MessageRow). str_eq r.session_id id) db.messages)

unfoldable pub get_session : String → Exec Db Error ChatSession
get_session id = do
  found ← query (λ db. find session_key id db.sessions)
  s ← or_not_found found
  messages ← query (messages_of id)
  pure (record s { messages = messages })

unfoldable pub session_exists : String → Exec Db Error Bool
session_exists id =
    query (λ db. not (length (keep (λ (s : ChatSession). str_eq s.id id) db.sessions) == 0))

abbrev pub insert_message : String → ChatMessage → Statement
insert_message id m db = some (record db {
  messages =
      db.messages ++ record { session_id = id; message = record m { id = db.next_message } } ∷ [];
  next_message = db.next_message + 1;
})

unfoldable pub append_message : String → ChatMessage → Exec Db Error (Unit {0})
append_message id m db = as_error (exec_ctx (insert_message id m) db)

abbrev pub last_rows : ℕ → List ChatMessage → List ChatMessage
last_rows n rows = reverse (take n (reverse rows))

abbrev pub older_than : ℕ → List ChatMessage → List ChatMessage
older_than cursor = keep (λ (m : ChatMessage). ltb m.id cursor)

abbrev pub newer_than : ℕ → List ChatMessage → List ChatMessage
newer_than cursor = keep (λ (m : ChatMessage). ltb cursor m.id)

-- The statement that the cursors choose, turned into ascending order.
abbrev pub window : ℕ → ℕ → ℕ → List ChatMessage → List ChatMessage
window before after limit rows =
    if ltb 0 after
    then take limit (newer_than after rows)
    else if ltb 0 before
    then last_rows limit (older_than before rows)
    else last_rows limit rows

abbrev pub limit_or_default : ℕ → ℕ
limit_or_default limit = if limit == 0 then 50 else limit

unfoldable pub list_messages : String → ℕ → ℕ → ℕ → Exec Db Error (List ChatMessage × ℕ)
list_messages id before after limit = do
  total ← query (λ db. length (messages_of id db))
  rows ← query (λ db. window before after (limit_or_default limit) (messages_of id db))
  pure (rows, total)

text_length : String → ℕ
text_length String.[] = 0
text_length (String.◌∷◌ c s) = suc (text_length s)

text_take : ℕ → String → String
text_take zero s = String.[]
text_take (suc n) String.[] = String.[]
text_take (suc n) (String.◌∷◌ c s) = String.◌∷◌ c (text_take n s)

text_append : String → String → String
text_append String.[] t = t
text_append (String.◌∷◌ c s) t = String.◌∷◌ c (text_append s t)

unfoldable pub truncate : String → String
unfolding text_length text_take text_append
truncate s = if ltb 80 (text_length s) then text_append (text_take 79 s) "…" else s

-- The digits of a fraction of a second without the zeros at its end, then the zone.
fraction_digits : ℕ → ℕ → Bytes
fraction_digits zero n = 90 ∷ []
fraction_digits (suc k) n =
    let rest = fraction_digits k (n % 10 ^ k) in
    if n == 0 then 90 ∷ [] else (48 + n / 10 ^ k) ∷ rest

-- The text of a time after its seconds, in the format of the columns.
fraction_text : ℕ → Bytes
unfolding fraction_digits
fraction_text n = if n == 0 then 90 ∷ [] else 46 ∷ fraction_digits 9 n

bytes_below : Bytes → Bytes → Bool
bytes_below s [] = false
bytes_below [] (y ∷ t) = true
bytes_below (x ∷ s) (y ∷ t) = elim (compare x y) [ lt ↦ true | eq ↦ bytes_below s t | _ ↦ false ]

-- The order of the texts of two times. The seconds are of fixed width.
pub time_text_below : ℕ → ℕ → Bool
unfolding fraction_text bytes_below
time_text_below a b =
    let second_a = a / 10 ^ 9 in
    let second_b = b / 10 ^ 9 in
    ltb second_a second_b
    || second_a == second_b && bytes_below (fraction_text (a % 10 ^ 9)) (fraction_text (b % 10 ^ 9))

-- COALESCE(MAX(id), 0)
pub max_id : List ChatMessage → ℕ
max_id [] = 0
max_id (m ∷ rows) = max m.id (max_id rows)

pub first_user_message : List ChatMessage → String
first_user_message [] = ""
first_user_message (m ∷ rows) =
    let rest = first_user_message rows in if str_eq m.role "user" then m.content else rest

pub last_message_of : List ChatMessage → Option ChatMessage
last_message_of [] = none
last_message_of (m ∷ []) = some m
last_message_of (m ∷ n ∷ rows) = last_message_of (n ∷ rows)

abbrev pub time_or_zero : Option ChatMessage → ℕ
time_or_zero none = 0
time_or_zero (some m) = m.created_at

abbrev pub content_or_empty : Option ChatMessage → String
content_or_empty none = ""
content_or_empty (some m) = m.content

pub summary_of : Db → ChatSession → SessionSummary
unfolding truncate first_user_message last_message_of
summary_of db s =
    let rows = messages_of s.id db in
    let newest = last_message_of rows in
    record {
      id = s.id;
      created_at = s.created_at;
      message_count = length rows;
      last_message_at = time_or_zero newest;
      first_message = truncate (first_user_message rows);
      last_message = truncate (content_or_empty newest);
    }

-- ORDER BY of the list of sessions, both descending.
pub comes_before : Db → ChatSession → ChatSession → Bool
unfolding max_id time_text_below
comes_before db s t =
    let newest_s = max_id (messages_of s.id db) in
    let newest_t = max_id (messages_of t.id db) in
    ltb newest_t newest_s || newest_s == newest_t && time_text_below t.created_at s.created_at

pub insert_recent : Db → ChatSession → List ChatSession → List ChatSession
unfolding comes_before
insert_recent db s [] = s ∷ []
insert_recent db s (t ∷ rows) =
    let rest = insert_recent db s rows in if comes_before db t s then t ∷ rest else s ∷ t ∷ rows

pub sort_recent : Db → List ChatSession → List ChatSession
unfolding insert_recent
sort_recent db [] = []
sort_recent db (s ∷ rows) = insert_recent db s (sort_recent db rows)

unfoldable pub list_sessions : ℕ → ℕ → Exec Db Error (List SessionSummary × ℕ)
unfolding sort_recent summary_of page_of
list_sessions page size = do
  total ← query (λ db. length db.sessions)
  rows ← query (λ db. map (summary_of db) (page_of page size (sort_recent db db.sessions)))
  pure (rows, total)

unfoldable pub count_sessions : Exec Db Error ℕ
count_sessions = query (λ db. length db.sessions)
