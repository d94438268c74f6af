-- ===== src/Store/Chats/History.antt =====
-- internal/store/sqlstore.go: the history of a session, read page by page.
use cadenza.Prelude.{
  ℕ, zero, suc, ◌≤◌, ◌<◌, ◌≡◌, refl, sym, ap, ◌∙◌, subst, String, List, [], ◌∷◌, ◌++◌, take, drop,
  length, length-append, arith, ok, Exec, pure, ◌>>=◌,
}
use cadenza.Models.Chats.{ChatMessage}
use cadenza.Store.{Db, Error}
use cadenza.Store.Chats.{list_messages, messages_of, window, last_rows, limit_or_default}
use cadenza.Store.Chats.Cursor.{
  Ascends, IsNumbered, messages_of-Ascends, older_than-split, id_below, list_messages-quiet,
}
use mathlib.Core.List.{reverse, reverse-append, reverse-reverse, append_assoc, append-nil}

-- The messages of a page, and before them what a reader gets before the first of them.
abbrev pub with_older :
    (ℕ → Exec Db Error (List ChatMessage)) → List ChatMessage → Exec Db Error (List ChatMessage)
with_older load [] = pure []
with_older load (m ∷ page) = do older ← load m.id; pure (older ++ m ∷ page)

-- A reader that asks for the page before the oldest message it has, until a page is empty. A
-- cursor of 0 asks for the end of the history.
pub load_history : ℕ → String → ℕ → ℕ → Exec Db Error (List ChatMessage)
load_history zero id limit cursor = pure []
load_history (suc rounds) id limit cursor = do
  answer ← list_messages id cursor 0 limit
  with_older (load_history rounds id limit) answer.0

-- The last rows of a list stand at its end.
last_rows-append :
    (n : ℕ) (xs : List ChatMessage) → reverse (drop n (reverse xs)) ++ last_rows n xs ≡ xs
last_rows-append n xs =
    sym (reverse-append (take n (reverse xs)) (drop n (reverse xs)))
    ∙ ap reverse (take_drop n (reverse xs))
    ∙ reverse-reverse xs
  where
    take_drop : (n : ℕ) (xs : List ChatMessage) → take n xs ++ drop n xs ≡ xs
    take_drop zero xs = refl
    take_drop (suc n) [] = refl
    take_drop (suc n) (x ∷ xs) = ap (λ l. x ∷ l) (take_drop n xs)

last_rows-empty : (n : ℕ) (xs : List ChatMessage) → 1 ≤ n → last_rows n xs ≡ [] → xs ≡ []
last_rows-empty n xs pos h =
    sym (reverse-reverse xs)
    ∙ ap reverse
        (none_taken n (reverse xs) pos (sym (reverse-reverse (take n (reverse xs))) ∙ ap reverse h))
  where
    none_taken : (n : ℕ) (xs : List ChatMessage) → 1 ≤ n → take n xs ≡ [] → xs ≡ []
    none_taken zero xs pos h = absurd (omega (arith, pos))
    none_taken (suc n) [] pos h = refl
    none_taken (suc n) (x ∷ xs) pos h = cc

limit-pos : (limit : ℕ) → 1 ≤ limit_or_default limit
limit-pos limit = ground arith

module _ (db : Db) (id : String) (limit : ℕ) (quiet : db.disturbances ≡ []) where
  -- Reading on from before a message gives what is before it.
  abbrev ReadsBefore : ℕ → Type 0
  ReadsBefore rounds =
      (m : ChatMessage) (xs ys : List ChatMessage)
      → messages_of id db ≡ xs ++ m ∷ ys
      → Ascends 0 (xs ++ m ∷ ys)
      → length xs < rounds
      → load_history rounds id limit m.id db ≡ (ok xs, db)

  with_older-page :
      (rounds : ℕ) (xs tail front page : List ChatMessage)
      → ReadsBefore rounds
      → front ++ page ≡ xs
      → (page ≡ [] → xs ≡ [])
      → messages_of id db ≡ xs ++ tail
      → Ascends 0 (xs ++ tail)
      → length xs ≤ rounds
      → with_older (load_history rounds id limit) page db ≡ (ok xs, db)
  with_older-page rounds xs tail front [] before parts empty rows asc enough =
      ap (λ (l : List ChatMessage). (ok l, db)) (sym (empty refl))
  with_older-page rounds xs tail front (m ∷ page) before parts empty rows asc enough =
      let whole = ap (λ l. l ++ tail) (sym parts) ∙ append_assoc front (m ∷ page) tail in
      rw
        (before m front (page ++ tail) (rows ∙ whole) (subst (Ascends 0) whole asc)
          (omega (arith, enough, ap length parts, length-append front (m ∷ page))))
        (ap (λ (l : List ChatMessage). (ok l, db)) parts)

  with_older-last_rows :
      (rounds : ℕ) (xs tail : List ChatMessage)
      → ReadsBefore rounds
      → messages_of id db ≡ xs ++ tail
      → Ascends 0 (xs ++ tail)
      → length xs ≤ rounds
      → with_older (load_history rounds id limit) (last_rows (limit_or_default limit) xs) db
        ≡ (ok xs, db)
  with_older-last_rows rounds xs tail before rows asc enough =
      let n = limit_or_default limit in
      with_older-page rounds xs tail (reverse (drop n (reverse xs))) (last_rows n xs) before
        (last_rows-append n xs) (last_rows-empty n xs (limit-pos limit)) rows asc enough

  window-before :
      (m : ChatMessage) (xs ys : List ChatMessage)
      → messages_of id db ≡ xs ++ m ∷ ys
      → Ascends 0 (xs ++ m ∷ ys)
      → window m.id 0 (limit_or_default limit) (messages_of id db)
        ≡ last_rows (limit_or_default limit) xs
  window-before m xs ys rows asc =
      ground (arith, rows, older_than-split m ys 0 xs asc, id_below m ys 0 xs asc)

  reads_before : (rounds : ℕ) → ReadsBefore rounds
  unfolding load_history
  reads_before zero m xs ys rows asc enough = absurd (omega (arith, enough))
  reads_before (suc rounds) m xs ys rows asc enough =
      rw (list_messages-quiet id m.id 0 limit db quiet, window-before m xs ys rows asc)
        (with_older-last_rows rounds xs (m ∷ ys) (reads_before rounds) rows asc
          (omega (arith, enough)))

-- Where nothing disturbs the reads and the table of messages is numbered, a reader that starts at
-- the end of a session and asks for one page after the other gets every message of the session
-- once and in order, whatever the size of a page, if it asks one time more than there are messages.
pub load_history-messages_of :
    (db : Db) (id : String) (limit rounds : ℕ)
    → db.disturbances ≡ []
    → IsNumbered 0 db.messages db.next_message
    → length (messages_of id db) < rounds
    → load_history rounds id limit 0 db ≡ (ok (messages_of id db), db)
unfolding load_history
load_history-messages_of db id limit zero quiet numbered enough = absurd (omega (arith, enough))
load_history-messages_of db id limit (suc rounds) quiet numbered enough =
    let rows = messages_of id db in
    let asc = messages_of-Ascends id 0 db.next_message db.messages numbered in
    rw (list_messages-quiet id 0 0 limit db quiet) (
      with_older-last_rows db id limit quiet rounds rows [] (reads_before db id limit quiet rounds)
        (sym (append-nil rows)) (subst (Ascends 0) (sym (append-nil rows)) asc)
        (omega (arith, enough)))
