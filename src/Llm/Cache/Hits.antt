-- ===== src/Llm/Cache/Hits.antt =====
-- internal/agent/llm.go: when `cacheModel` answers without asking the wrapped model.
use cadenza.Prelude.{
  ℕ, ◌+◌, ◌≤◌, ◌≡◌, String, Bytes, [], ◌∷◌, Option, none, some, find, eq_refl, arith,
}
use cadenza.Llm.{Response, Request, stream, Model}
use cadenza.Llm.Cache.{Cache, entry_key, get, put, keep_answer, generate_keyed, cache_generate}

get-put :
    (now at : ℕ) (k : String) (r : Response) (c : Cache)
    → now ≤ at + c.ttl
    → get now k (put at k r c) ≡ (some r, put at k r c)
unfolding get put find
get-put now at k r c early = ground (arith, eq_refl k)

get_fresh :
    (now : ℕ) (k : String) (c : Cache) → find entry_key k c.entries ≡ none → get now k c ≡ (none, c)
unfolding get
get_fresh now k c fresh = ground arith

module _ {S : Type 0} (digest : Bytes → Option String) (m : Model S) where
  first_answer :
      (before after : ℕ) (req : Request) (c : Cache) (s : S) (r : Response) (k : String)
      → find entry_key k c.entries ≡ none
      → (m req s).0 ≡ stream (r ∷ [])
      → r.error ≡ none
      → generate_keyed (some k) before after m req (c, s)
        ≡ (stream (r ∷ []), (put after k r c, (m req s).1))
  unfolding generate_keyed keep_answer
  first_answer before after req c s r k fresh single fine =
      ground (arith, get_fresh before k c fresh)

  second_answer :
      (before after at : ℕ) (req : Request) (c : Cache) (s : S) (r : Response) (k : String)
      → before ≤ at + c.ttl
      → generate_keyed (some k) before after m req (put at k r c, s)
        ≡ (stream (r ∷ []), (put at k r c, s))
  unfolding generate_keyed
  second_answer before after at req c s r k early = ground (arith, get-put before at k r c early)

  -- A request that finds no entry and is answered by one response with no error leaves an entry;
  -- until that ends, another request whose messages have the same key gets the same answer and the
  -- wrapped model is not asked, whatever tools either declares.
  pub cache_generate_hit :
      (b1 a1 b2 a2 : ℕ) (req other : Request) (c : Cache) (s : S) (r : Response) (k : String)
      → digest req.messages ≡ some k
      → digest other.messages ≡ some k
      → find entry_key k c.entries ≡ none
      → (m req s).0 ≡ stream (r ∷ [])
      → r.error ≡ none
      → b2 ≤ a1 + c.ttl
      → (cache_generate digest b1 a1 m req (c, s) ≡ (stream (r ∷ []), (put a1 k r c, (m req s).1)))
        × (cache_generate digest b2 a2 m other (put a1 k r c, (m req s).1)
            ≡ (stream (r ∷ []), (put a1 k r c, (m req s).1)))
  unfolding cache_generate
  cache_generate_hit b1 a1 b2 a2 req other c s r k key same fresh single fine early = (
    rw key (first_answer b1 a1 req c s r k fresh single fine),
    rw same (second_answer b2 a2 a1 other c (m req s).1 r k early),
  )
