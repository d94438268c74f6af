-- ===== src/Agent/Generate/Quiet.antt =====
-- internal/agent/tools.go: what the tools that write configurations leave to an approval.
use cadenza.Prelude.{
  ℕ, String, refl, Bool, true, List, [], ◌∷◌, Keeps, Keeps-bind, ◌>>=◌, ◌>>◌, ignore_error,
}
use cadenza.Models.{Task, awaiting_approval}
use cadenza.Store.Tables.{update_task, get_collector}
use cadenza.Task
use cadenza.Agent.{Agent, on_db, now, move_task}
use cadenza.Agent.Quiet.{
  IsQuiet, IsCalm, Calm-Readable, Keeps-on_db, Keeps-now, Keeps-pure, Keeps-audit, Keeps-move_task,
}
use cadenza.Agent.Versions.Base.{base_config_for-keeps, base_for_instance-keeps}
use cadenza.Agent.Generate.{
  Answer, create_task_now, base_for_target, base_for_uid, store_yaml, handle_upgrade, finish,
  handle_generate_config, handle_optimize_config,
}
use cadenza.Agent.Generate.Steps.{
  Steps, Keeps-handle_upgrade, Keeps-handle_generate_config, Keeps-handle_optimize_config,
}

module _ (before : Agent) where
  Keeps-create_task_now : (t : Task) → Keeps (IsQuiet before) (create_task_now t)
  Keeps-create_task_now t =
      Keeps-bind now (λ time. on_db (Task.create time t)) (Keeps-now before)
        (λ time. Keeps-on_db before (Task.create time t))

  Keeps-base_for_target : (target : String) → Keeps (IsQuiet before) (base_for_target target)
  Keeps-base_for_target target = record {
    at = λ a.
        base_config_for-keeps (IsCalm before.world) (Calm-Readable before.world) target a.world;
  }

  Keeps-base_for_uid : (uid : String) → Keeps (IsQuiet before) (base_for_uid uid)
  Keeps-base_for_uid uid = record {
    at =
        λ a. base_for_instance-keeps (IsCalm before.world) (Calm-Readable before.world) uid a.world;
  }

  pub Quiet-Steps : Steps (IsQuiet before)
  Quiet-Steps = record {
    creates = Keeps-create_task_now;
    audits = Keeps-audit before;
    moves = Keeps-move_task before;
    reads_collector = λ uid. Keeps-on_db before (get_collector uid);
    reads_base = Keeps-base_for_target;
    reads_base_of = Keeps-base_for_uid;
  }

  Keeps-store_yaml : (yaml : String) (t : Task) → Keeps (IsQuiet before) (store_yaml yaml t)
  unfolding store_yaml
  Keeps-store_yaml yaml t =
      Keeps-bind now
        (λ time. ignore_error (on_db (update_task time (record t { generated_yaml = yaml }))) tt)
        (Keeps-now before)
        (λ time. record {
          at = (Keeps-on_db before (update_task time (record t { generated_yaml = yaml }))).at;
        })

  -- The end of both tools where approval is required.
  pub Keeps-delivers :
      (hash : String → String) (covers : String → String → Bool) (id yaml : String)
      → Keeps (IsQuiet before) (do
        waiting ← move_task id awaiting_approval
        store_yaml yaml waiting
        finish hash covers true waiting)
  unfolding finish
  Keeps-delivers hash covers id yaml =
      Keeps-bind (move_task id awaiting_approval) _ (Keeps-move_task before id awaiting_approval)
        (λ waiting.
          Keeps-bind (store_yaml yaml waiting) _ (Keeps-store_yaml yaml waiting)
            (λ _. Keeps-pure before waiting))

-- A call of a tool by the model: to generate, to optimise, or to ask for an upgrade.
pub data ToolCall : Type 0 where
  generate_call optimize_call upgrade_call : String → String → String → String → ToolCall

module _ (llm : ℕ → String → String → Answer) (valid : String → Bool) (hash : String → String)
    (covers : String → String → Bool) where
  unfoldable pub run_tool : ToolCall → Agent → Agent
  run_tool (generate_call id session target desc) a =
      (handle_generate_config llm valid hash covers true id session target desc a).1
  run_tool (optimize_call id session uid goal) a =
      (handle_optimize_config llm valid hash covers true id session uid goal a).1
  run_tool (upgrade_call id session target version) a =
      (handle_upgrade id session target version a).1

  unfoldable pub run_tools : List ToolCall → Agent → Agent
  unfolding run_tool
  run_tools [] a = a
  run_tools (c ∷ calls) a = run_tools calls (run_tool c a)

  run_tool-IsQuiet :
      (before : Agent) (c : ToolCall) (a : Agent) → IsQuiet before a → IsQuiet before (run_tool c a)
  unfolding run_tool
  run_tool-IsQuiet before (generate_call id session target desc) a h =
      (Keeps-handle_generate_config (IsQuiet before) (Quiet-Steps before) llm valid hash covers true
          (Keeps-delivers before hash covers) id session target desc).at
        a h
  run_tool-IsQuiet before (optimize_call id session uid goal) a h =
      (Keeps-handle_optimize_config (IsQuiet before) (Quiet-Steps before) llm valid hash covers true
          (Keeps-delivers before hash covers) id session uid goal).at
        a h
  run_tool-IsQuiet before (upgrade_call id session target version) a h =
      (Keeps-handle_upgrade (IsQuiet before) (Quiet-Steps before) id session target version).at a h

  run_tools-IsQuiet_from :
      (before : Agent) (calls : List ToolCall) (a : Agent)
      → IsQuiet before a
      → IsQuiet before (run_tools calls a)
  unfolding run_tools
  run_tools-IsQuiet_from before [] a h = h
  run_tools-IsQuiet_from before (c ∷ calls) a h =
      run_tools-IsQuiet_from before calls (run_tool c a) (run_tool-IsQuiet before c a h)

  -- Where approval is required, whatever the language model answers and however often it calls the
  -- tools that generate, optimise and upgrade, nothing is sent to an agent, nothing is left to be
  -- sent, and the registry does not change.
  pub run_tools-IsQuiet : (calls : List ToolCall) (a : Agent) → IsQuiet a (run_tools calls a)
  run_tools-IsQuiet calls a = run_tools-IsQuiet_from a calls a (refl, refl, refl)
