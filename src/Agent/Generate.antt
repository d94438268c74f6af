-- ===== src/Agent/Generate.antt =====
-- internal/agent/tools.go: the tools that write configurations with the language model, and the
-- one that asks for an upgrade. What the model answers to an attempt is a parameter, as is the
-- verdict of the validator; a new id is an argument.
pub mod Fences
pub mod First
pub mod Steps
pub mod Lives
pub mod Quiet
use Prim.Native.String.{◌++◌ as concat}
use cadenza.Prelude.{
  ℕ, zero, suc, ◌+◌, String, Bool, true, false, not, ◌||◌, List, [], ◌∷◌, Option, none, some, Exec,
  pure, raise, ◌>>=◌, ◌>>◌, ignore_error, on_some, str_eq, if◌then◌else◌,
}
use cadenza.Models.{
  Task, TaskType, generate, optimize, upgrade, pending, generating, validating, awaiting_approval,
  generated, Collector, CollectorStatus, healthy, unhealthy, offline, unknown, unset, status_word,
}
use cadenza.Store.{Error, missing_argument, invalid_config, generation_failed}
use cadenza.Store.Tables.{update_task, get_collector}
use cadenza.Task
use cadenza.Agent.{Agent, on_db, now, audit, move_task}
use cadenza.Agent.Versions.{
  BaseSource, no_base, reported, stored, base_config_for, base_for_instance,
}
use cadenza.Agent.Dispatch.{fail_task, dispatch_approve}
use cadenza.Agent.Generate.Fences.{trim_text, strip_code_fence}

-- One response of a stream: an error, or the contents of its choices.
pub data Response : Type 0 where
  failed_response : Response
  choices : List String → Response

-- A call that fails at once, or a stream.
pub data Answer : Type 0 where
  unavailable : Answer
  stream : List Response → Answer

join_all : List String → String
join_all [] = ""
join_all (s ∷ rest) = concat s (join_all rest)

-- The contents up to the end of the stream, or nothing where a response is an error.
unfoldable pub collect : List Response → Option String
unfolding join_all
collect [] = some ""
collect (failed_response ∷ rest) = none
collect (choices contents ∷ rest) = on_some (concat (join_all contents)) (collect rest)

abbrev pub or_empty_answer : String → Option String
or_empty_answer s = if str_eq s "" then none else some s

-- `callConfigLLM`, from what the model answers; nothing for an error.
unfoldable pub config_of : Answer → Option String
unfolding collect
config_of unavailable = none
config_of (stream responses) = elim (collect responses) [
  | none ↦ none
  | some content ↦ or_empty_answer (strip_code_fence (trim_text content))
]

module _ (llm : ℕ → String → String → Answer) (valid : String → Bool) where
  -- The loop of `generateYAML`, with the attempts that are left and the number of those made.
  unfoldable pub generate_rounds : ℕ → ℕ → String → String → Option String
  generate_rounds zero made desc context = none
  generate_rounds (suc left) made desc context =
      let rest = generate_rounds left (made + 1) desc context in
      elim (config_of (llm made desc context)) [
        | none ↦ rest
        | some yaml ↦ if valid yaml then some yaml else rest
      ]

  unfoldable pub generate_yaml : String → String → Option String
  unfolding generate_rounds
  generate_yaml desc context = generate_rounds 3 0 desc context

abbrev pub source_text : BaseSource → String
source_text no_base = ""
source_text reported = "reported"
source_text stored = "store"

-- A new task of a tool.
abbrev pub new_task :
    String → TaskType → Bool → String → String → String → String × BaseSource → Task
new_task id type require_approval input session target base = record {
  id = id;
  type = type;
  status = pending;
  require_approval = require_approval;
  input = input;
  generated_yaml = "";
  base_yaml = base.0;
  git_commit = "";
  git_path = "";
  git_ref = "";
  base_source = source_text base.1;
  session_id = session;
  target_group_id = target;
  target_instance_uid = "";
  rollback_version_id = 0;
  approvers = [];
  approver = "";
  reject_reason = "";
  model_used = "";
  error = "";
  created_at = 0;
  updated_at = 0;
}

abbrev pub create_task_now : Task → Exec Agent Error Task
create_task_now t = do time ← now; on_db (Task.create time t)

abbrev pub base_for_target : String → Exec Agent Error (String × BaseSource)
base_for_target target a =
    let (found, w) = base_config_for target a.world in pure found (record a { world = w })

abbrev pub base_for_uid : String → Exec Agent Error (String × BaseSource)
base_for_uid uid a =
    let (found, w) = base_for_instance uid a.world in pure found (record a { world = w })

-- A step that fails the task, and the error that follows.
unfoldable pub give_up : {A : Type 0} → String → Error → Exec Agent Error A
give_up id e = do fail_task id; raise e

unfoldable pub or_give_up : String → Option String → Exec Agent Error String
unfolding give_up
or_give_up id none = give_up id generation_failed
or_give_up id (some yaml) = pure yaml

abbrev pub check_again : Bool → String → Exec Agent Error (Unit {0})
check_again true id = pure tt
check_again false id = give_up id invalid_config

-- The configuration is written into the task that waits; an error is dropped.
unfoldable pub store_yaml : String → Task → Exec Agent Error (Unit {0})
store_yaml yaml t = do
  time ← now
  ignore_error (on_db (update_task time (record t { generated_yaml = yaml }))) tt

abbrev pub generated_detail : String → String
generated_detail target = concat "生成配置 target=" target

abbrev pub context_of : Collector → String
context_of c = concat "Collector 版本 " (
    concat c.version
      (concat "，状态 " (concat (status_word c.status) (concat "。\n当前生效配置：\n" c.effective_config))))

abbrev pub optimize_desc : String → String
optimize_desc goal =
    if str_eq goal "" then "请分析并优化上述配置" else concat "请针对目标优化：" (concat goal "\n请分析并优化上述配置")

unfoldable pub handle_upgrade : String → String → String → String → Exec Agent Error Task
handle_upgrade id session target version =
    if str_eq target "" || str_eq version ""
    then raise missing_argument
    else create_task_now
        (record (new_task id upgrade true
          (concat "升级 target=" (concat target (concat " 到版本 " version))) session target
          ("", no_base)) { status = awaiting_approval })

-- The end of both tools: the task waits for an approval, or is dispatched.
unfoldable pub finish :
    (String → String) → (String → String → Bool) → Bool → Task → Exec Agent Error Task
finish hash covers true t = pure t
finish hash covers false t = do dispatch_approve hash covers t.id "agent"; pure t

module _ (llm : ℕ → String → String → Answer) (valid : String → Bool) (hash : String → String)
    (covers : String → String → Bool) (require_approval : Bool) where
  unfoldable pub handle_generate_config : String → String → String → String → Exec Agent Error Task
  unfolding generate_yaml or_give_up give_up store_yaml finish
  handle_generate_config id session target desc =
      if str_eq target "" || str_eq desc "" then raise missing_argument else do
        base ← base_for_target target
        t ← create_task_now (new_task id generate require_approval desc session target base)
        audit "agent" generated t.id (generated_detail target)
        move_task t.id generating
        yaml ← or_give_up t.id (generate_yaml llm valid desc "")
        move_task t.id validating
        check_again (valid yaml) t.id
        waiting ← move_task t.id awaiting_approval
        store_yaml yaml waiting
        finish hash covers require_approval waiting

  unfoldable pub handle_optimize_config : String → String → String → String → Exec Agent Error Task
  unfolding generate_yaml or_give_up give_up store_yaml finish
  handle_optimize_config id session uid goal = if str_eq uid "" then raise missing_argument else do
    c ← on_db (get_collector uid)
    base ← base_for_uid uid
    t ←
        create_task_now
          (new_task id optimize require_approval (optimize_desc goal) session uid base)
    move_task t.id generating
    yaml ← or_give_up t.id (generate_yaml llm valid (optimize_desc goal) (context_of c))
    move_task t.id validating
    waiting ← move_task t.id awaiting_approval
    store_yaml yaml waiting
    finish hash covers require_approval waiting
