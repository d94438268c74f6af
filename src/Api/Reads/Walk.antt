-- ===== src/Api/Reads/Walk.antt =====
-- internal/api/sessions.go: the page of messages that a client asks for by a cursor it was given.
use cadenza.Prelude.{
  ◌&&◌, trim_space, trim_left, bytes_eq, ℕ, ◌^◌, ◌≤◌, ◌<◌, ◌≡◌, refl, String, Bool, true, false, [],
  some, ok, keep, length, arith, decimal, str_eq, ltb,
}
use cadenza.Models.Chats.{ChatSession}
use cadenza.Store.{Db, query}
use cadenza.Store.Chats.{session_exists, messages_of, window, limit_or_default}
use cadenza.Store.Chats.Cursor.{list_messages-quiet}
use cadenza.Api.Http.{get}
use cadenza.Api.Params.{non_negative_int64}
use cadenza.Api.Params.Printed.{params-decimal}
use cadenza.Api.Reads.{list_session_messages_request}

session_exists-quiet :
    (id : String) (db : Db)
    → db.disturbances ≡ []
    → 1 ≤ length (keep (λ (s : ChatSession). str_eq s.id id) db.sessions)
    → session_exists id db ≡ (ok true, db)
unfolding session_exists query
session_exists-quiet id db quiet there = rw quiet ground arith

no_cursor : non_negative_int64 [] ≡ some 0
unfolding non_negative_int64 trim_space trim_left bytes_eq
no_cursor = refl

one_cursor : (b : Bool) → (b && ltb 0 0) ≡ false
one_cursor true = refl
one_cursor false = refl

-- For a session that exists, where nothing disturbs the reads, a request for the messages before a
-- cursor, sent as it was printed, with a limit from 1 to 100, is answered with the last messages
-- of that number whose ids are below the cursor (all count where it is 0), and with the number of
-- all messages of the session.
pub list_session_messages_request-window :
    (db : Db) (id : String) (cursor limit : ℕ)
    → db.disturbances ≡ []
    → 1 ≤ length (keep (λ (s : ChatSession). str_eq s.id id) db.sessions)
    → cursor < 2 ^ 63
    → 1 ≤ limit
    → limit ≤ 100
    → list_session_messages_request get
        (record { before_id = decimal cursor; after_id = []; limit = decimal limit })
        id
        db
      ≡ (ok (window cursor 0 limit (messages_of id db), length (messages_of id db)), db)
unfolding list_session_messages_request
list_session_messages_request-window db id cursor limit quiet there small above below =
    let (pages, before, size) =
      params-decimal 1 limit cursor (omega arith) (omega arith) above below small in
    let set : limit_or_default limit ≡ limit = ground (arith, above) in
    rw
      (
        session_exists-quiet id db quiet there,
        before,
        no_cursor,
        one_cursor (ltb 0 cursor),
        size,
        list_messages-quiet id cursor 0 limit db quiet,
        set,
      )
      refl
