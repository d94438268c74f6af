-- ===== src/Agent/Generate/Steps.antt =====
-- internal/agent/tools.go: what holds through the steps of the tools that write configurations
-- holds through the tools.
use cadenza.Prelude.{
  ℕ, String, Bool, true, false, ◌||◌, Option, none, some, pure, raise, ◌>>=◌, ◌>>◌, Keeps, ◌≡◌,
  Keeps-bind, Bool-cases, inl, inr, str_eq, if◌then◌else◌,
}
use cadenza.Models.{
  Task, TaskStatus, AuditAction, generate, optimize, generating, validating, awaiting_approval,
  failed, generated,
}
use cadenza.Store.{Error, missing_argument, invalid_config, generation_failed}
use cadenza.Store.Tables.{get_collector}
use cadenza.Agent.{Agent, on_db, audit, move_task}
use cadenza.Agent.Dispatch.{fail_task}
use cadenza.Agent.Generate.{
  Answer, generate_yaml, new_task, create_task_now, base_for_target, base_for_uid, give_up,
  or_give_up, check_again, store_yaml, handle_upgrade, finish, generated_detail, optimize_desc,
  context_of, handle_generate_config, handle_optimize_config,
}

-- The steps that the tools are made of keep a property of the state.
pub record Steps (P : Agent → Type 0) : Type 0 where
  pub creates : (t : Task) → Keeps P (create_task_now t)
  pub audits :
      (actor : String) (action : AuditAction) (subject detail : String)
      → Keeps P (audit actor action subject detail)
  pub moves : (id : String) (to : TaskStatus) → Keeps P (move_task id to)
  pub reads_collector : (uid : String) → Keeps P (on_db (get_collector uid))
  pub reads_base : (target : String) → Keeps P (base_for_target target)
  pub reads_base_of : (uid : String) → Keeps P (base_for_uid uid)

module _ (P : Agent → Type 0) where
  pub Keeps-value : {A : Type 0} (x : A) → Keeps P (pure {E = Error} x)
  Keeps-value x = record { at = λ a h. h }

  pub Keeps-error : {A : Type 0} (e : Error) → Keeps P (raise {A = A} e)
  Keeps-error e = record { at = λ a h. h }

module _ (P : Agent → Type 0) (steps : Steps P) where
  Keeps-give_up : {A : Type 0} (id : String) (e : Error) → Keeps P (give_up {A = A} id e)
  unfolding give_up
  Keeps-give_up id e =
      Keeps-bind (fail_task id) _ (record { at = (steps.moves id failed).at })
        (λ _. Keeps-error P e)

  Keeps-or_give_up : (id : String) (yaml : Option String) → Keeps P (or_give_up id yaml)
  unfolding or_give_up
  Keeps-or_give_up id none = Keeps-give_up id generation_failed
  Keeps-or_give_up id (some yaml) = Keeps-value P yaml

  Keeps-check_again : (accepted : Bool) (id : String) → Keeps P (check_again accepted id)
  Keeps-check_again true id = Keeps-value P tt
  Keeps-check_again false id = Keeps-give_up id invalid_config

  pub Keeps-handle_upgrade :
      (id session target version : String) → Keeps P (handle_upgrade id session target version)
  unfolding handle_upgrade
  Keeps-handle_upgrade id session target version =
      elim (Bool-cases (str_eq target "" || str_eq version "")) [
        | inl missing ↦ rw (missing, if◌then◌else◌) (Keeps-error P missing_argument)
        | inr given ↦ rw (given, if◌then◌else◌) (steps.creates _)
      ]

module _ (P : Agent → Type 0) (steps : Steps P) (llm : ℕ → String → String → Answer)
    (valid : String → Bool) (hash : String → String) (covers : String → String → Bool)
    (require_approval : Bool)
    (delivers : (id yaml : String)
      → Keeps P (do
        waiting ← move_task id awaiting_approval
        store_yaml yaml waiting
        finish hash covers require_approval waiting)) where
  Keeps-generating :
      (id session target desc : String)
      → str_eq target "" || str_eq desc "" ≡ false
      → Keeps P
          (handle_generate_config llm valid hash covers require_approval id session target desc)
  unfolding handle_generate_config
  Keeps-generating id session target desc given =
      rw (given, if◌then◌else◌)
        (Keeps-bind (base_for_target target) _ (steps.reads_base target) (λ base.
          let draft = new_task id generate require_approval desc session target base in
          Keeps-bind (create_task_now draft) _ (steps.creates draft) (λ t.
            Keeps-bind (audit "agent" generated t.id (generated_detail target)) _
              (steps.audits "agent" generated t.id (generated_detail target))
              (λ _. Keeps-bind (move_task t.id generating) _ (steps.moves t.id generating) (λ _.
                let yaml = generate_yaml llm valid desc "" in
                Keeps-bind (or_give_up t.id yaml) _ (Keeps-or_give_up P steps t.id yaml) (λ yaml.
                  Keeps-bind (move_task t.id validating) _ (steps.moves t.id validating) (λ _.
                    Keeps-bind (check_again (valid yaml) t.id) _
                      (Keeps-check_again P steps (valid yaml) t.id) (λ _. delivers t.id yaml))))))))

  pub Keeps-handle_generate_config :
      (id session target desc : String)
      → Keeps P
          (handle_generate_config llm valid hash covers require_approval id session target desc)
  unfolding handle_generate_config
  Keeps-handle_generate_config id session target desc =
      elim (Bool-cases (str_eq target "" || str_eq desc "")) [
        | inl missing ↦ rw (missing, if◌then◌else◌) (Keeps-error P missing_argument)
        | inr given ↦ Keeps-generating id session target desc given
      ]

  pub Keeps-handle_optimize_config :
      (id session uid goal : String)
      → Keeps P (handle_optimize_config llm valid hash covers require_approval id session uid goal)
  unfolding handle_optimize_config
  Keeps-handle_optimize_config id session uid goal = elim (Bool-cases (str_eq uid "")) [
    | inl missing ↦ rw (missing, if◌then◌else◌) (Keeps-error P missing_argument)
    | inr given ↦
        rw (given, if◌then◌else◌)
          (Keeps-bind (on_db (get_collector uid)) _ (steps.reads_collector uid) (λ c.
            Keeps-bind (base_for_uid uid) _ (steps.reads_base_of uid) (λ base.
              let draft =
                new_task id optimize require_approval (optimize_desc goal) session uid base in
              Keeps-bind (create_task_now draft) _ (steps.creates draft) (λ t.
                Keeps-bind (move_task t.id generating) _ (steps.moves t.id generating) (λ _.
                  let yaml = generate_yaml llm valid (optimize_desc goal) (context_of c) in
                  Keeps-bind (or_give_up t.id yaml) _ (Keeps-or_give_up P steps t.id yaml) (λ yaml.
                    Keeps-bind (move_task t.id validating) _ (steps.moves t.id validating)
                      (λ _. delivers t.id yaml)))))))
  ]
