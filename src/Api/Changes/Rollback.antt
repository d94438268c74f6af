-- ===== src/Api/Changes/Rollback.antt =====
-- internal/api/handlers.go: the request for a rollback, to a version or to a commit.
use Prim.Native.String.{◌++◌ as concat}
use cadenza.Prelude.{
  ℕ, String, Bool, not, ◌||◌, List, [], ◌∷◌, Option, none, some, Exec, pure, ◌>>=◌, ◌>>◌, ltb,
  length, take, Bytes, str_eq, ◌==◌, if◌then◌else◌,
}
use cadenza.Models.{Task, rollback, ConfigVersion, rolled_back}
use cadenza.Store.Pages.{list_config_versions}
use cadenza.Agent.{Agent, on_db, audit}
use cadenza.Api.Sources.{Console, on_agent, Site, Source, git_source}
use cadenza.Api.Http.{
  Method, is_post, refuse_if, or_refuse, refuse_as, always, approver_of, number_text,
}
use cadenza.Api.Changes.{create_now, draft, origin_detail}

pub record RollbackRequest : Type 0 where
  pub collector_instance_uid : String
  pub version_id : ℕ
  pub session_id : String
  pub git_ref : String
  pub git_commit : String

unfoldable pub find_own : ℕ → List ConfigVersion → Option ConfigVersion
find_own id [] = none
find_own id (v ∷ rows) = if v.id == id then some v else find_own id rows

unfoldable pub rollback_draft : String → RollbackRequest → Task
rollback_draft id req = record (draft id rollback) {
  input =
      concat "回滚 "
        (concat req.collector_instance_uid (concat " 到版本 " (number_text req.version_id)));
  session_id = req.session_id;
  target_instance_uid = req.collector_instance_uid;
  rollback_version_id = req.version_id;
}

-- The version of a collector with an id; `valid` is the verdict of the validator.
unfoldable pub rollback_version :
    (String → Bool) → String → RollbackRequest → Exec Agent ℕ (ℕ × Task)
unfolding find_own
rollback_version valid id req = do
  refuse_if (req.version_id == 0) 400
  versions ← refuse_as (always 500) (on_db (list_config_versions req.collector_instance_uid 0 0))
  target ← or_refuse 400 (find_own req.version_id versions.0)
  refuse_if (not (valid target.yaml)) 400
  t ← refuse_as (always 500) (create_now (rollback_draft id req))
  pure (201, t)

unfoldable pub commit_draft : String → RollbackRequest → Source → String → String → Task
commit_draft id req source short ref = record (draft id rollback) {
  input = concat "按 git 提交回退 " (concat req.collector_instance_uid (concat " 到 " short));
  session_id = req.session_id;
  generated_yaml = source.yaml;
  target_instance_uid = req.collector_instance_uid;
  git_commit = source.git_commit;
  git_path = source.git_path;
  git_ref = ref;
}

-- The end of a request by a panic, which has no answer.
abbrev pub panic : ℕ
panic = 0

-- A rollback to what a commit has; the name of a commit with fewer than 8 bytes is a panic.
unfoldable pub rollback_commit :
    (String → Bool)
    → (Bytes → String)
    → String
    → String
    → RollbackRequest
    → String
    → Source
    → Exec Agent ℕ (ℕ × Task)
rollback_commit valid text id username req ref source = do
  refuse_if (not (valid source.yaml)) 400
  refuse_if (ltb (length source.sha) 8) panic
  let short = text (take 8 source.sha)
  t ← refuse_as (always 500) (create_now (commit_draft id req source short ref))
  refuse_as (always 500)
      (audit (approver_of username "") rolled_back t.id (origin_detail source ref))
  pure (201, t)

abbrev pub commit_or_ref : RollbackRequest → String
commit_or_ref req = if str_eq req.git_commit "" then req.git_ref else req.git_commit

unfoldable pub rollback_request :
    (String → Bool)
    → Site
    → String
    → Method
    → String
    → Option RollbackRequest
    → Exec Console ℕ (ℕ × Task)
unfolding rollback_version rollback_commit
rollback_request valid site id method username body = do
  refuse_if (not (is_post method)) 405
  req ← or_refuse 400 body
  refuse_if (str_eq req.collector_instance_uid "") 400
  if not (str_eq req.git_ref "") || not (str_eq req.git_commit "")
      then (do
        source ← git_source site req.collector_instance_uid (commit_or_ref req)
        on_agent (rollback_commit valid site.text id username req (commit_or_ref req) source))
      else on_agent (rollback_version valid id req)
