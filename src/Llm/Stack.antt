-- ===== src/Llm/Stack.antt =====
-- internal/agent/llm.go: `NewStableModel`, which puts the wrappers around the models that are
-- configured. The clients of the models and the failover between them are parameters.
pub mod Reach
use cadenza.Prelude.{
  ℕ, not, String, Bool, true, false, ◌&&◌, List, [], ◌∷◌, ◌++◌, Option, none, some, Bytes, bytes,
  bytes_eq, ltb, if◌then◌else◌,
}
use cadenza.Llm.{Request, Answer, Model}
use cadenza.Llm.Retry.{Env, attempts}
use cadenza.Llm.Circuit.{Circuit, circuit_generate}
use cadenza.Llm.Cache.{Cache, cache_generate}
use cadenza.Config.{LlmConfig}

-- A model to ask: its name, where it is, and the key for it.
pub record Candidate : Type 0 where
  pub name : Bytes
  pub base_url : Bytes
  pub api_key : Bytes

abbrev pub name_or : Bytes → Bytes → Bytes
name_or name other = if bytes_eq name [] then other else name

abbrev pub main_model : LlmConfig → Candidate
main_model cfg = record { name = cfg.model; base_url = cfg.base_url; api_key = cfg.api_key }

abbrev pub backup_models : LlmConfig → List Candidate
backup_models cfg =
    if not (bytes_eq cfg.backup_base_url []) && not (bytes_eq cfg.backup_api_key [])
    then record {
      name = name_or cfg.backup_model cfg.model;
      base_url = cfg.backup_base_url;
      api_key = cfg.backup_api_key;
    }
      ∷ []
    else []

abbrev pub local_models : LlmConfig → List Candidate
local_models cfg =
    if not (bytes_eq cfg.local_base_url [])
    then record {
      name = name_or cfg.local_model (bytes "local-model");
      base_url = cfg.local_base_url;
      api_key = [];
    }
      ∷ []
    else []

-- The models in the order in which they are asked.
unfoldable pub candidates : LlmConfig → List Candidate
candidates cfg = main_model cfg ∷ (backup_models cfg ++ local_models cfg)

-- What the wrappers are made with, where the number of retries is not negative; the settings of the circuit are in its state.
pub record Limits : Type 0 where
  pub max_retries : ℕ
  pub base_delay : ℕ
  pub cache_ttl : ℕ

-- The times of the sections of a request: before and after the look up, and the same of the
-- circuit breaker.
pub record Times : Type 0 where
  pub looked_up : ℕ
  pub admitted : ℕ
  pub settled : ℕ
  pub stored : ℕ

module _ {S : Type 0} where
  abbrev pub unique_or_failover :
      (Candidate → Model S)
      → (List Candidate → Option (Model S))
      → List Candidate
      → Option (Model S)
  unique_or_failover client failover (c ∷ []) = some (client c)
  unique_or_failover client failover cs = failover cs

  abbrev pub guarded : Limits → Times → Model S → Model (Circuit × Env S)
  guarded l t m = circuit_generate t.admitted t.settled (attempts l.max_retries l.base_delay m)

  abbrev pub uncached : Model (Circuit × Env S) → Model (Cache × (Circuit × Env S))
  uncached m req (c, s) = let (a, s') = m req s in (a, (c, s'))

  -- The wrappers around a model, the cache only where answers are to be kept.
  unfoldable pub wrapped :
      (Bytes → Option String) → Limits → Times → Model S → Model (Cache × (Circuit × Env S))
  wrapped digest l t m =
      if ltb 0 l.cache_ttl
      then cache_generate digest t.looked_up t.stored (guarded l t m)
      else uncached (guarded l t m)

  abbrev pub wrapped_or_none :
      (Bytes → Option String)
      → Limits
      → Times
      → Option (Model S)
      → Option (Model (Cache × (Circuit × Env S)))
  wrapped_or_none digest l t none = none
  wrapped_or_none digest l t (some m) = some (wrapped digest l t m)

  -- The model that is used, unless the failover cannot be made.
  unfoldable pub stable_model :
      (Bytes → Option String)
      → (Candidate → Model S)
      → (List Candidate → Option (Model S))
      → LlmConfig
      → Limits
      → Times
      → Option (Model (Cache × (Circuit × Env S)))
  unfolding wrapped candidates
  stable_model digest client failover cfg l t =
      wrapped_or_none digest l t (unique_or_failover client failover (candidates cfg))
