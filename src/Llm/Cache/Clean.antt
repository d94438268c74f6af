-- ===== src/Llm/Cache/Clean.antt =====
-- internal/agent/llm.go: what `cacheModel` keeps.
use cadenza.Prelude.{
  ℕ, ◌≡◌, refl, String, Bytes, List, [], ◌∷◌, Option, Option-cases, Bool-cases, inl, inr, All, none,
  some, find, without, str_eq, ltb,
}
use cadenza.Llm.{Response, Request, Answer, fails, stream, Model}
use cadenza.Llm.Cache.{
  CacheEntry, Cache, entry_key, read_entry, get, put, keep_answer, after_get, cache_key,
  generate_keyed, cache_generate,
}

-- Every entry holds an answer without an error.
abbrev pub IsClean : Cache → Type 0
IsClean c = All (λ (e : CacheEntry). e.resp.error ≡ none) c.entries

All-without :
    (k : String) (l : List CacheEntry)
    → All (λ (e : CacheEntry). e.resp.error ≡ none) l
    → All (λ (e : CacheEntry). e.resp.error ≡ none) (without entry_key k l)
unfolding without
All-without k [] h = tt
All-without k (e ∷ l) (here, rest) = elim (Bool-cases (str_eq e.key k)) [
  | inl hit ↦ rw hit (All-without k l rest)
  | inr miss ↦ rw miss (here, All-without k l rest)
]

read_entry-IsClean :
    (now : ℕ) (k : String) (o : Option CacheEntry) (c : Cache)
    → IsClean c
    → IsClean (read_entry now k o c).1
unfolding read_entry
read_entry-IsClean now k none c h = h
read_entry-IsClean now k (some e) c h = elim (Bool-cases (ltb e.expire_at now)) [
  | inl late ↦ rw late (All-without k c.entries h)
  | inr early ↦ rw early h
]

get-IsClean : (now : ℕ) (k : String) (c : Cache) → IsClean c → IsClean (get now k c).1
unfolding get
get-IsClean now k c h = read_entry-IsClean now k (find entry_key k c.entries) c h

keep_answer-IsClean :
    (now : ℕ) (k : String) (a : Answer) (c : Cache) → IsClean c → IsClean (keep_answer now k a c).1
unfolding keep_answer put
keep_answer-IsClean now k (fails f) c h = h
keep_answer-IsClean now k (stream []) c h = h
keep_answer-IsClean now k (stream (first ∷ [])) c h = elim (Option-cases first.error) [
  | inl fine ↦ rw fine (refl, All-without k c.entries h)
  | inr (m, bad) ↦ rw bad h
]
keep_answer-IsClean now k (stream (first ∷ second ∷ rest)) c h = h

after_get-IsClean :
    {S : Type 0} (found : Option Response) (after : ℕ) (k : String) (answer : Answer × S)
    (c : Cache) (s : S)
    → IsClean c
    → IsClean (after_get found after k answer c s).1.0
after_get-IsClean (some r) after k (a, s') c s h = h
after_get-IsClean none after k (a, s') c s h = keep_answer-IsClean after k a c h

generate_keyed-IsClean :
    {S : Type 0} (key : Option String) (before after : ℕ) (m : Model S) (req : Request) (c : Cache)
    (s : S)
    → IsClean c
    → IsClean (generate_keyed key before after m req (c, s)).1.0
unfolding generate_keyed
generate_keyed-IsClean none before after m req c s h = h
generate_keyed-IsClean (some k) before after m req c s h =
    after_get-IsClean (get before k c).0 after k (m req s) (get before k c).1 s
      (get-IsClean before k c h)

-- However the wrapped model answers, a cache that holds no answer with an error holds none after a
-- call.
pub cache_generate-IsClean :
    {S : Type 0} (digest : Bytes → Option String) (before after : ℕ) (m : Model S) (req : Request)
    (c : Cache) (s : S)
    → IsClean c
    → IsClean (cache_generate digest before after m req (c, s)).1.0
unfolding cache_generate
cache_generate-IsClean digest before after m req c s h =
    generate_keyed-IsClean (cache_key digest req) before after m req c s h
