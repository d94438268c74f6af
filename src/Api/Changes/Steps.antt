-- ===== src/Api/Changes/Steps.antt =====
-- internal/api: what holds through the steps of a request holds through the request.
use cadenza.Prelude.{
  ℕ, String, Bool, not, ◌||◌, Option, Result, ok, err, Exec, pure, Keeps, Keeps-bind, Keeps-if,
  Bytes, bytes, str_eq, length, ltb, take, ◌==◌,
}
use cadenza.Models.{AuditAction, applied as apply_action, rolled_back, Collector, Task}
use cadenza.Store.Pages.{list_config_versions}
use cadenza.Store.Tables.{get_collector}
use cadenza.Git.{expand_pathspec}
use cadenza.Git.Repo.{Repo}
use cadenza.Agent.{Agent, on_db, audit}
use cadenza.Api.Http.{Method, is_post, always, approver_of}
use cadenza.Api.Http.Steps.{Keeps-answer, Keeps-guard, Keeps-given, Keeps-tried}
use cadenza.Api.Gits.{bad_request, read_file, the}
use cadenza.Api.Sources.{Console, on_agent, on_repo, Site, Source, own_source, git_source}
use cadenza.Api.Changes.{
  create_now, ApplyRequest, base_of, apply_draft, audit_apply, audit_origin, answer_apply,
  submit_apply, apply_request, origin_detail,
}
use cadenza.Api.Changes.Rollback.{
  RollbackRequest, find_own, rollback_draft, rollback_version, commit_draft, panic, rollback_commit,
  commit_or_ref, rollback_request,
}

-- The steps that requests are made of keep a property of the state.
pub record Steps (P : Agent → Type 0) : Type 0 where
  pub creates : (t : Task) → Keeps P (create_now t)
  pub audits :
      (actor : String) (action : AuditAction) (subject detail : String)
      → Keeps P (audit actor action subject detail)
  pub reads_collector : (uid : String) → Keeps P (on_db (get_collector uid))
  pub reads_versions : (uid : String) → Keeps P (on_db (list_config_versions uid 0 0))

module _ (P : Agent → Type 0) where
  -- The property of the server beside a repository.
  abbrev pub Held : Console → Type 0
  Held c = P c.agent

  Keeps-base_of : (c : Collector) → Keeps P (base_of c)
  Keeps-base_of c = record { at = λ a g. g }

  pub Keeps-on_agent : {A : Type 0} (m : Exec Agent ℕ A) → Keeps P m → Keeps Held (on_agent m)
  Keeps-on_agent m h = record { at = λ c p. h.at c.agent p }

  Keeps-on_repo : {A : Type 0} (m : Exec Repo ℕ A) → Keeps Held (on_repo m)
  Keeps-on_repo m = record { at = λ c p. p }

  Keeps-the : {A : Type 0} (x : Result ℕ A) → Keeps Held (the x)
  Keeps-the (ok a) = record { at = λ c p. p }
  Keeps-the (err code) = record { at = λ c p. p }

  Keeps-git_source : (site : Site) (uid ref : String) → Keeps Held (git_source site uid ref)
  unfolding git_source
  Keeps-git_source site uid ref = Keeps-guard Held (not site.enabled) 409 _ (
      let path = bad_request (expand_pathspec site.settings.git_config_pathspec (bytes uid)) in
      Keeps-bind (the path) _ (Keeps-the path) (λ p.
        Keeps-bind (on_repo (read_file site.git (bytes ref) p)) _
          (Keeps-on_repo (read_file site.git (bytes ref) p)) (λ found. Keeps-answer Held _)))

module _ (P : Agent → Type 0) (steps : Steps P) where
  Keeps-rollback_version :
      (valid : String → Bool) (id : String) (req : RollbackRequest)
      → Keeps P (rollback_version valid id req)
  unfolding rollback_version
  Keeps-rollback_version valid id req =
      let uid = req.collector_instance_uid in
      Keeps-guard P (req.version_id == 0) 400 _ (
        Keeps-tried P (always 500) (on_db (list_config_versions uid 0 0)) _
          (steps.reads_versions uid)
          (λ versions. Keeps-given P 400 (find_own req.version_id versions.0) _ (λ target.
            Keeps-guard P (not (valid target.yaml)) 400 _ (
              Keeps-tried P (always 500) (create_now (rollback_draft id req)) _
                (steps.creates (rollback_draft id req)) (λ t. Keeps-answer P (201, t))))))

  Keeps-rollback_commit :
      (valid : String → Bool) (text : Bytes → String) (id username : String) (req : RollbackRequest)
      (ref : String) (source : Source)
      → Keeps P (rollback_commit valid text id username req ref source)
  unfolding rollback_commit
  Keeps-rollback_commit valid text id username req ref source =
      let t = commit_draft id req source (text (take 8 source.sha)) ref in
      Keeps-guard P (not (valid source.yaml)) 400 _ (
        Keeps-guard P (ltb (length source.sha) 8) panic _ (
          Keeps-tried P (always 500) (create_now t) _ (steps.creates t) (λ made.
            Keeps-tried P (always 500)
              (audit (approver_of username "") rolled_back made.id (origin_detail source ref)) _
              (steps.audits (approver_of username "") rolled_back made.id
                (origin_detail source ref))
              (λ _. Keeps-answer P (201, made)))))

  pub Keeps-rollback_request :
      (valid : String → Bool) (site : Site) (id : String) (method : Method) (username : String)
      (body : Option RollbackRequest)
      → Keeps (Held P) (rollback_request valid site id method username body)
  unfolding rollback_request
  Keeps-rollback_request valid site id method username body =
      Keeps-guard (Held P) (not (is_post method)) 405 _ (
        Keeps-given (Held P) 400 body _ (λ req.
          let uid = req.collector_instance_uid in
          let ref = commit_or_ref req in
          Keeps-guard (Held P) (str_eq uid "") 400 _ (
            Keeps-if (Held P) (not (str_eq req.git_ref "") || not (str_eq req.git_commit "")) _ _
              (λ _.
                Keeps-bind (git_source site uid ref) _ (Keeps-git_source P site uid ref) (λ source.
                  Keeps-on_agent P (rollback_commit valid site.text id username req ref source)
                    (Keeps-rollback_commit valid site.text id username req ref source)))
              (λ _.
                Keeps-on_agent P (rollback_version valid id req)
                  (Keeps-rollback_version valid id req)))))

module _ (P : Agent → Type 0) (steps : Steps P) (hash : String → String)
    (covers : String → String → Bool) (require_approval : Bool)
    (answers : (approver : String) (t : Task)
      → Keeps P (answer_apply hash covers require_approval approver t)) where
  Keeps-audit_origin :
      (actor id : String) (source : Source) (ref : String)
      → Keeps P (audit_origin actor id source ref)
  unfolding audit_origin
  Keeps-audit_origin actor id source ref =
      Keeps-if P (str_eq source.git_commit "") _ _ (λ _. record { at = λ a g. g })
        (λ _. steps.audits actor apply_action id (origin_detail source ref))

  Keeps-submit_apply :
      (valid : String → Bool) (id username : String) (req : ApplyRequest) (source : Source)
      → Keeps P (submit_apply hash covers valid require_approval id username req source)
  unfolding submit_apply audit_apply
  Keeps-submit_apply valid id username req source =
      let uid = req.collector_instance_uid in
      let who = approver_of username "" in
      Keeps-guard P (str_eq source.yaml "") 400 _ (
        Keeps-tried P (always 404) (on_db (get_collector uid)) _ (steps.reads_collector uid)
          (λ target. Keeps-bind (base_of target) _ (Keeps-base_of P target) (λ base.
            let t = apply_draft require_approval id req source base in
            Keeps-guard P (not (valid source.yaml)) 400 _ (
              Keeps-tried P (always 500) (create_now t) _ (steps.creates t) (λ made.
                Keeps-tried P (always 500) (audit_apply hash who made.id uid source.yaml) _
                  (steps.audits who apply_action made.id _)
                  (λ _.
                    Keeps-tried P (always 500) (audit_origin who made.id source req.git_ref) _
                      (Keeps-audit_origin who made.id source req.git_ref)
                      (λ _. answers who made)))))))

  pub Keeps-apply_request :
      (valid : String → Bool) (site : Site) (id : String) (method : Method) (username : String)
      (body : Option ApplyRequest)
      → Keeps
          (Held P)
          (apply_request hash covers valid require_approval site id method username body)
  unfolding apply_request
  Keeps-apply_request valid site id method username body =
      Keeps-guard (Held P) (not (is_post method)) 405 _ (
        Keeps-given (Held P) 400 body _ (λ req.
          let uid = req.collector_instance_uid in
          Keeps-guard (Held P) (str_eq uid "") 400 _ (
            Keeps-bind _ _
              (Keeps-if (Held P) (str_eq req.git_ref "") (pure (own_source req.yaml))
                (git_source site uid req.git_ref) (λ _. Keeps-answer (Held P) (own_source req.yaml))
                (λ _. Keeps-git_source P site uid req.git_ref))
              (λ source.
                Keeps-on_agent P
                  (submit_apply hash covers valid require_approval id username req source)
                  (Keeps-submit_apply valid id username req source)))))
