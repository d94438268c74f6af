-- ===== src/Store/Chats/Appends.antt =====
-- internal/store/sqlstore.go: what an appended message changes, whatever disturbs the statement.
use cadenza.Prelude.{
  ◌+◌, ◌≡◌, refl, ◌∙◌, subst, String, false, List, [], ◌∷◌, ◌++◌, map, keep, ok, err, Result,
  str_eq, arith, if◌then◌else◌, Keeps, All, ◌<◌, eq_refl, Option, some,
}
use cadenza.Models.Chats.{ChatMessage, MessageRow}
use cadenza.Store.{Db, Error, database, Fault, as_error}
use cadenza.Store.Retry.{Ran, refused, applied, disturbed, exec_ctx-Ran}
use cadenza.Store.Chats.{append_message, insert_message, messages_of, message_of}
use cadenza.Store.Chats.Cursor.{IsNumbered, IsNumbered-append, IsNumbered-below}
use mathlib.Core.List.{append-nil}

-- The message is refused and nothing changes, or it is the session's last, with an id that is above
-- all others, and no other session has changed.
pub data Appended (id : String) (m : ChatMessage) (db : Db)
    : Result Error (Unit {0}) × Db → Type 0 where
  dropped : (e : Error) (d : List (Option Fault)) → Appended id m db (err e, disturbed db d)
  added :
      (db' : Db)
      → messages_of id db' ≡ messages_of id db ++ record m { id = db.next_message } ∷ []
      → ((other : String) → str_eq id other ≡ false → messages_of other db' ≡ messages_of other db)
      → All (λ (r : MessageRow). r.message.id < db.next_message) db.messages
      → IsNumbered 0 db'.messages db'.next_message
      → Appended id m db (ok tt, db')

keep_row :
    (id own : String) (m : ChatMessage) (rows : List MessageRow)
    → map message_of (
        keep
          (λ (r : MessageRow). str_eq r.session_id id)
          (rows ++ record { session_id = own; message = m } ∷ []))
      ≡ map message_of (keep (λ (r : MessageRow). str_eq r.session_id id) rows)
        ++ (if str_eq own id then m ∷ [] else [])
keep_row id own m [] = ground arith
keep_row id own m (r ∷ rows) = ground (arith, keep_row id own m rows)

inserted :
    (id : String) (m : ChatMessage) (db db' : Db)
    → insert_message id m db ≡ some db'
    → record db {
      messages =
          db.messages
          ++ record { session_id = id; message = record m { id = db.next_message } } ∷ [];
      next_message = db.next_message + 1;
    }
      ≡ db'
inserted id m db db' h = cc

-- Where the ids of the stored messages ascend up to the counter: a message that is appended stands
-- after the session's others, with an id above all that are in the table, no other session changes,
-- and the ids ascend up to the counter again; or the statement fails and nothing changes.
pub append_message-Appended :
    (id : String) (m : ChatMessage) (db : Db)
    → IsNumbered 0 db.messages db.next_message
    → Appended id m db (append_message id m db)
unfolding append_message
append_message-Appended id m db numbered = go (exec_ctx-Ran (insert_message id m) db)
  where
    go :
        {r : Result Fault (Unit {0}) × Db}
        → Ran (insert_message id m) db r
        → Appended id m db (as_error r)
    go (refused f d) = dropped (database f) d
    go (applied d db' h) =
        let row = record m { id = db.next_message } in
        let same : (k : String)
            → messages_of k db' ≡ messages_of k db ++ (if str_eq id k then row ∷ [] else []) =
          λ k.
            subst
              (λ (s : Db).
                messages_of k s ≡ messages_of k db ++ (if str_eq id k then row ∷ [] else []))
              (inserted id m (disturbed db d) db' h) (keep_row k id row db.messages) in
        added db' (same id ∙ rw (eq_refl id) refl) (λ other ne. same other ∙ rw ne (append-nil _))
          (IsNumbered-below 0 db.next_message db.messages numbered)
          (subst (λ (s : Db). IsNumbered 0 s.messages s.next_message)
            (inserted id m (disturbed db d) db' h)
            (IsNumbered-append 0 db.next_message db.messages
              (record { session_id = id; message = row }) refl numbered))

pub append_message-IsNumbered :
    (id : String) (m : ChatMessage)
    → Keeps (λ (db : Db). IsNumbered 0 db.messages db.next_message) (append_message id m)
unfolding append_message
append_message-IsNumbered id m = record {
  at = λ db numbered. go db numbered (exec_ctx-Ran (insert_message id m) db);
}
  where
    go :
        (db : Db)
        → IsNumbered 0 db.messages db.next_message
        → {r : Result Fault (Unit {0}) × Db} → Ran (insert_message id m) db r
        → IsNumbered 0 (as_error r).1.messages (as_error r).1.next_message
    go db numbered (refused f d) = numbered
    go db numbered (applied d db' h) =
        subst (λ (s : Db). IsNumbered 0 s.messages s.next_message)
          (inserted id m (disturbed db d) db' h)
          (IsNumbered-append 0 db.next_message db.messages
            (record { session_id = id; message = record m { id = db.next_message } }) refl numbered)
