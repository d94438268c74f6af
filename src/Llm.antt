-- ===== src/Llm.antt =====
-- internal/agent/llm.go: what the wrappers of a model share. A wrapped model is a function on a
-- state of its own, so each call may answer differently. Times are nanoseconds.
pub mod Retry
pub mod Circuit
pub mod Cache
pub mod Stack
use cadenza.Prelude.{
  ℕ, zero, suc, ◌+◌, ◌*◌, ◌%◌, ◌^◌, Bool, true, false, ◌&&◌, ◌||◌, List, [], ◌∷◌, map, Option, none,
  some, Bytes, bytes, bytes_eq, take, length, leb, if◌then◌else◌, ◌==◌,
}

-- The errors that a call can return, by what their texts say; `message` is one of the model's.
pub data Failure : Type 0 where
  message : Bytes → Failure
  exhausted : Failure → Failure
  cancelled closed_early circuit_open : Failure

pub record Response : Type 0 where
  pub model : Bytes
  pub error : Option Bytes
  pub content : Bytes

-- What is sent: the messages and the declarations of the tools, both serialised.
pub record Request : Type 0 where
  pub messages : Bytes
  pub tools : Bytes

-- An error, or the responses that the channel gives before it is closed.
pub data Answer : Type 0 where
  fails : Failure → Answer
  stream : List Response → Answer

abbrev pub Model : Type 0 → Type 0
Model S = Request → S → Answer × S

-- strings.ToLower, on ASCII letters
abbrev pub to_lower : ℕ → ℕ
to_lower c = if leb b'A' c && leb c b'Z' then c + 32 else c

pub starts_with : Bytes → Bytes → Bool
starts_with [] s = true
starts_with (p ∷ ps) [] = false
starts_with (p ∷ ps) (c ∷ s) = (p == c) && starts_with ps s

unfoldable pub contains : Bytes → Bytes → Bool
unfolding starts_with
contains word [] = starts_with word []
contains word (c ∷ s) = starts_with word (c ∷ s) || contains word s

pub contains_any : List Bytes → Bytes → Bool
unfolding contains
contains_any [] s = false
contains_any (w ∷ ws) s = contains w s || contains_any ws s

abbrev pub keywords : List Bytes
keywords =
    bytes "timeout"
    ∷ bytes "connection"
    ∷ bytes "temporary"
    ∷ bytes "rate limit"
    ∷ bytes "429"
    ∷ bytes "500"
    ∷ bytes "502"
    ∷ bytes "503"
    ∷ bytes "504"
    ∷ bytes "overloaded"
    ∷ bytes "unavailable"
    ∷ []

unfoldable pub retryable_error : Bytes → Bool
unfolding contains_any
retryable_error msg = contains_any keywords (map to_lower msg)

-- `retryableError` on an error: the texts of the package's own errors hold no keyword.
unfoldable pub retryable_failure : Failure → Bool
unfolding retryable_error
retryable_failure (message m) = retryable_error m
retryable_failure (exhausted f) = retryable_failure f
retryable_failure _ = false
