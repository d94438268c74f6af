-- ===== src/Llm/Cache.antt =====
-- internal/agent/llm.go: `cacheModel`. The digest of the messages, sha256 over their JSON, is a
-- parameter; the cache is an association list with one entry for each key.
pub mod Hits
pub mod Clean
use cadenza.Prelude.{
  ℕ, ◌+◌, ◌<◌, ◌≤◌, ◌≡◌, refl, String, Bytes, Bool, true, false, List, [], ◌∷◌, Option,
  Option-cases, Bool-cases, inl, inr, All, none, some, find, without, find-without, eq_refl, str_eq,
  ltb, if◌then◌else◌, arith, on_some,
}
use cadenza.Llm.{Failure, closed_early, Response, Request, Answer, fails, stream, Model}

pub record CacheEntry : Type 0 where
  pub key : String
  pub resp : Response
  pub expire_at : ℕ

pub record Cache : Type 0 where
  pub ttl : ℕ
  pub entries : List CacheEntry

abbrev pub entry_key : CacheEntry → String
entry_key e = e.key

-- An entry is dropped when it is read after its end.
pub read_entry : ℕ → String → Option CacheEntry → Cache → Option Response × Cache
read_entry now k none c = (none, c)
read_entry now k (some e) c =
    if ltb e.expire_at now
    then (none, record c { entries = without entry_key k c.entries })
    else (some e.resp, c)

unfoldable pub get : ℕ → String → Cache → Option Response × Cache
unfolding read_entry
get now k c = read_entry now k (find entry_key k c.entries) c

unfoldable pub put : ℕ → String → Response → Cache → Cache
put now k r c = record c {
  entries = record { key = k; resp = r; expire_at = now + c.ttl } ∷ without entry_key k c.entries;
}

-- What is kept of an answer, and what the caller gets for it.
unfoldable pub keep_answer : ℕ → String → Answer → Cache → Answer × Cache
unfolding put
keep_answer now k (fails f) c = (fails f, c)
keep_answer now k (stream []) c = (fails closed_early, c)
keep_answer now k (stream (first ∷ [])) c = elim first.error [
  | none ↦ (stream (first ∷ []), put now k first c)
  | some m ↦ (stream (first ∷ []), c)
]
keep_answer now k (stream (first ∷ second ∷ rest)) c = (stream (first ∷ second ∷ rest), c)

-- The rest of the call, after the look up: the wrapped model's answer is read only on a miss.
abbrev pub after_get :
    {S : Type 0} → Option Response → ℕ → String → Answer × S → Cache → S → Answer × (Cache × S)
after_get (some r) after k (a, s') c s = (stream (r ∷ []), (c, s))
after_get none after k (a, s') c s = let (a', c') = keep_answer after k a c in (a', (c', s'))

-- `digest` is the key of the messages, or nothing where they cannot be serialised.
unfoldable pub cache_key : (Bytes → Option String) → Request → Option String
cache_key digest req = digest req.messages

-- One call with no other in between; the clock is read at the look up and at the insertion.
unfoldable pub generate_keyed :
    {S : Type 0} → Option String → ℕ → ℕ → Model S → Request → Cache × S → Answer × (Cache × S)
unfolding get keep_answer
generate_keyed none before after m req (c, s) = let (a, s') = m req s in (a, (c, s'))
generate_keyed (some k) before after m req (c, s) =
    let (found, c') = get before k c in after_get found after k (m req s) c' s

unfoldable pub cache_generate :
    {S : Type 0}
    → (Bytes → Option String)
    → ℕ
    → ℕ
    → Model S
    → Request
    → Cache × S
    → Answer × (Cache × S)
unfolding cache_key generate_keyed
cache_generate digest before after m req w =
    generate_keyed (cache_key digest req) before after m req w
