-- ===== src/Examples/Dispatches.antt =====
-- internal/agent: approvals that are dispatched, refused and stuck.
use cadenza.Prelude.{
  true, String, ◌≡◌, ◌≢◌, inl, refl, Bool, some, err, [], ◌∷◌, find, arith, on_some, str_eq,
}
use cadenza.Models.{Task, awaiting_approval, applying, generating}
use cadenza.Store.{nothing_to_push}
use cadenza.Store.Tables.{task_key}
use cadenza.Agent.{Agent}
use cadenza.Agent.Confirm.{wait_confirm}
use cadenza.Agent.Confirm.Returns.{Ends, wait_confirm-returns}
use cadenza.Agent.Dispatch.{dispatch_approve}
use cadenza.Agent.Dispatch.Guard.{IsRefused, dispatch_approve-IsRefused}
use cadenza.Agent.Dispatch.Stuck.{dispatch_approve_empty}
use cadenza.Agent.Subset.{text, mapping, Fields, field, no_fields, yaml_subset}
use cadenza.Examples.{task_in, db_with, empty_world}

abbrev agent_with : Task → Agent
agent_with t = record {
  world = record empty_world { db = db_with t };
  rounds = [];
  clock = 7 ∷ 8 ∷ [];
}

-- Stand-ins for the digest and for the comparison of configurations.
abbrev digest : String → String
digest s = s

abbrev covers : String → String → Bool
covers pushed eff = str_eq pushed eff

abbrev waiting_agent : Agent
waiting_agent = agent_with (task_in awaiting_approval)

abbrev blank_task : Task
blank_task = record (task_in awaiting_approval) { generated_yaml = "" }

wait_confirm-returns_example :
    Ends covers 6000 "0a" "h" "a: 1" (wait_confirm covers 31 0 6000 "0a" "h" "a: 1" waiting_agent)
wait_confirm-returns_example =
    wait_confirm-returns covers 6000 "0a" "h" "a: 1" 30 0 waiting_agent (omega arith)

dispatch_approve-IsRefused_example :
    IsRefused
      (agent_with (task_in generating))
      (dispatch_approve digest covers "t1" "amy" (agent_with (task_in generating)))
dispatch_approve-IsRefused_example =
    dispatch_approve-IsRefused "t1" "amy" (agent_with (task_in generating)) not_waiting digest
      covers
  where
    not_waiting :
        (t : Task)
        → find task_key "t1" (task_in generating ∷ []) ≡ some t
        → t.status ≢ awaiting_approval
    not_waiting t there h = unfold find in cc

dispatch_approve_empty_example :
    ((dispatch_approve digest covers "t1" "amy" (agent_with blank_task)).0 ≡ err nothing_to_push)
    × (on_some
          (λ (s : Task). s.status)
          (find task_key "t1"
            (dispatch_approve digest covers "t1" "amy" (agent_with blank_task)).1.world.db.tasks)
        ≡ some applying)
dispatch_approve_empty_example =
    dispatch_approve_empty digest covers "t1" "amy" (agent_with blank_task) blank_task refl
      (unfold find in refl) refl (inl refl) refl

abbrev pushed_fields : Fields
pushed_fields = field "level" (text "info") no_fields

abbrev default_fields : Fields
default_fields = field "encoding" (text "json") no_fields

covered_before :
    yaml_subset (λ v. "") (λ s t. str_eq s t) (mapping pushed_fields) (mapping pushed_fields) ≡ true
unfolding yaml_subset
covered_before = refl
