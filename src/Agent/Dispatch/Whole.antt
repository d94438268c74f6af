-- ===== src/Agent/Dispatch/Whole.antt =====
-- internal/agent/tools.go: a whole dispatch, and the tasks.
use cadenza.Prelude.{
  ℕ, String, Bool, true, false, not, Bool-cases, inl, inr, Result, ok, err, List, [], ◌∷◌, Exec,
  ◌>>◌, pure, Keeps, Keeps-bind, str_eq, ◌==◌, if◌then◌else◌, keep,
}
use cadenza.Models.{Task, done, failed, Collector, ConfigVersion, applied, rolled_back}
use cadenza.Store.{Db, Error, query, missing_argument, nothing_to_push, version_missing}
use cadenza.Store.Pages.{list_collectors}
use cadenza.Store.Tables.Others.{tasks-query, tasks-list_collectors}
use cadenza.Agent.{Agent, on_db, audit, move_task, set_task_error}
use cadenza.Agent.Confirm.{push_and_confirm}
use cadenza.Agent.Versions.{record_config_version}
use cadenza.Agent.Dispatch.{
  on_error, fail_task, mark_task_failed, target_collectors, some_match, is_target, push_one,
  push_all, pushing, recording, write_failed, rollback_write_failed, unconfirmed_rollback,
  rollback_detail, report_unconfirmed, dispatch_regular, dispatch_rollback_content, find_version,
}
use cadenza.Agent.Dispatch.Steps.{Same-push_and_confirm, Same-record_config_version}
use cadenza.Agent.Dispatch.Lives.{
  Grown, Grown-Same, Keeps-pure, Keeps-raise, Keeps-ignore, Keeps-spares, Keeps-audit,
  Keeps-move_task, Keeps-set_task_error,
}

module _ (k : String) (t0 : Task) where
  Keeps-on_error :
      {A : Type 0} (cleanup : Exec Agent Error (Unit {0})) (m : Exec Agent Error A)
      → Keeps (Grown k t0) cleanup
      → Keeps (Grown k t0) m
      → Keeps (Grown k t0) (on_error cleanup m)
  Keeps-on_error {A} cleanup m kc km = record { at = λ a g. go (m a).0 (m a).1 (km.at a g) }
    where
      go :
          (r : Result Error A) (a' : Agent)
          → Grown k t0 a'
          → Grown k t0
              (elim r as (λ _. Result Error A × Agent) [
                | ok x ↦ (ok x, a')
                | err e ↦ (err e, (cleanup a').1)
              ]).1
      go (ok x) a' g = g
      go (err e) a' g = kc.at a' g

  Keeps-fail_task : (id : String) → Keeps (Grown k t0) (fail_task id)
  Keeps-fail_task id = Keeps-ignore k t0 (move_task id failed) tt (Keeps-move_task k t0 id failed)

  Keeps-mark_task_failed : (id reason : String) → Keeps (Grown k t0) (mark_task_failed id reason)
  unfolding mark_task_failed
  Keeps-mark_task_failed id reason = Keeps-ignore k t0 _ tt (
      Keeps-bind (move_task id failed) (λ _. set_task_error id reason)
        (Keeps-move_task k t0 id failed) (λ _. Keeps-set_task_error k t0 id reason))

  Keeps-finish :
      (id reason : String)
      → Keeps (Grown k t0) (on_error (mark_task_failed id reason) (move_task id done))
  Keeps-finish id reason =
      Keeps-on_error (mark_task_failed id reason) (move_task id done)
        (Keeps-mark_task_failed id reason) (Keeps-move_task k t0 id done)

  Keeps-some_match : (rows : List Collector) → Keeps (Grown k t0) (some_match rows)
  Keeps-some_match [] = record { at = λ a g. g }
  Keeps-some_match (c ∷ rows) = record { at = λ a g. g }

  Keeps-query : {A : Type 0} (f : Db → A) → Keeps (Grown k t0) (on_db (query f))
  Keeps-query f = Keeps-spares k t0 (query f) (tasks-query f)

  Keeps-list_collectors : (page size : ℕ) → Keeps (Grown k t0) (on_db (list_collectors page size))
  Keeps-list_collectors page size =
      Keeps-spares k t0 (list_collectors page size) (tasks-list_collectors page size)

  pub Keeps-target_collectors : (target : String) → Keeps (Grown k t0) (target_collectors target)
  unfolding target_collectors
  Keeps-target_collectors target = elim (Bool-cases (str_eq target "")) [
    | inl e ↦ rw e (Keeps-raise k t0 missing_argument)
    | inr e ↦ rw e (
        Keeps-bind (on_db (list_collectors 0 0)) _ (Keeps-list_collectors 0 0)
          (λ all. Keeps-some_match (keep (is_target target) all.0)))
  ]

  module _ (hash : String → String) (covers : String → String → Bool) where
    Grown-push_one :
        (yaml : String) (c : Collector) (a : Agent)
        → Grown k t0 a
        → Grown k t0 (push_one hash covers yaml c a).1
    unfolding push_one
    Grown-push_one yaml c a g =
        go (push_and_confirm hash covers c.instance_uid yaml a).0
          (Grown-Same k t0 a a' (Same-push_and_confirm hash covers c.instance_uid yaml a) g)
      where
        a' : Agent
        a' = (push_and_confirm hash covers c.instance_uid yaml a).1

        go :
            (r : Result Error Bool)
            → Grown k t0 a'
            → Grown k t0
                (elim r as (λ _. Bool × Agent) [
                  | err e ↦ (false, a')
                  | ok was_confirmed ↦
                      (not was_confirmed, record_config_version hash c.instance_uid yaml a')
                ]).1
        go (err e) h = h
        go (ok b) h =
            Grown-Same k t0 a' (record_config_version hash c.instance_uid yaml a')
              (Same-record_config_version hash c.instance_uid yaml a') h

    Grown-push_all :
        (yaml : String) (rows : List Collector) (a : Agent)
        → Grown k t0 a
        → Grown k t0 (push_all hash covers yaml rows a).1
    unfolding push_all
    Grown-push_all yaml [] a g = g
    Grown-push_all yaml (c ∷ rows) a g =
        Grown-push_all yaml rows (push_one hash covers yaml c a).1 (Grown-push_one yaml c a g)

    Keeps-push_all :
        (yaml : String) (rows : List Collector) → Keeps (Grown k t0) (pushing hash covers yaml rows)
    Keeps-push_all yaml rows = record { at = λ a g. Grown-push_all yaml rows a g }

    Keeps-report_unconfirmed :
        (id approver : String) (uids : List String)
        → Keeps (Grown k t0) (report_unconfirmed id approver uids)
    unfolding report_unconfirmed
    Keeps-report_unconfirmed id approver [] = Keeps-pure k t0 tt
    Keeps-report_unconfirmed id approver (uid ∷ uids) =
        Keeps-bind (set_task_error id _) _ (Keeps-set_task_error k t0 id _)
          (λ _. Keeps-audit k t0 approver applied id _)

    pub Keeps-dispatch_regular :
        (id : String) (t : Task) (approver : String)
        → Keeps (Grown k t0) (dispatch_regular hash covers id t approver)
    unfolding dispatch_regular
    Keeps-dispatch_regular id t approver = elim (Bool-cases (str_eq t.generated_yaml "")) [
      | inl e ↦ rw e (Keeps-raise k t0 nothing_to_push)
      | inr e ↦ rw e (
          Keeps-bind (on_error (fail_task id) (target_collectors t.target_group_id)) _
            (Keeps-on_error (fail_task id) (target_collectors t.target_group_id)
              (Keeps-fail_task id) (Keeps-target_collectors t.target_group_id))
            (λ rows.
              Keeps-bind (pushing hash covers t.generated_yaml rows) _
                (Keeps-push_all t.generated_yaml rows)
                (λ missed.
                  Keeps-bind (on_error (mark_task_failed id write_failed) (move_task id done)) _
                    (Keeps-finish id write_failed)
                    (λ _.
                      Keeps-bind (audit approver applied id (hash t.generated_yaml)) _
                        (Keeps-audit k t0 approver applied id (hash t.generated_yaml))
                        (λ _. Keeps-report_unconfirmed id approver missed)))))
    ]

    Keeps-warning :
        (confirmed : Bool) (t : Task) (approver : String)
        → Keeps (Grown k t0) (
            if confirmed then pure {S = Agent} {E = Error} tt else do
              set_task_error t.id unconfirmed_rollback
              audit approver rolled_back t.id "生效确认超时")
    Keeps-warning true t approver = Keeps-pure k t0 tt
    Keeps-warning false t approver =
        Keeps-bind (set_task_error t.id unconfirmed_rollback) _
          (Keeps-set_task_error k t0 t.id unconfirmed_rollback)
          (λ _. Keeps-audit k t0 approver rolled_back t.id "生效确认超时")

    pub Keeps-dispatch_rollback_content :
        (t : Task) (yaml approver : String)
        → Keeps (Grown k t0) (dispatch_rollback_content hash covers t yaml approver)
    unfolding dispatch_rollback_content
    Keeps-dispatch_rollback_content t yaml approver =
        let push = push_and_confirm hash covers t.target_instance_uid yaml in
        Keeps-bind (on_error (fail_task t.id) push) _
          (Keeps-on_error (fail_task t.id) push (Keeps-fail_task t.id) (record {
            at = λ a g.
                Grown-Same k t0 a (push a).1
                  (Same-push_and_confirm hash covers t.target_instance_uid yaml a) g;
          }))
          (λ was_confirmed.
            Keeps-bind (recording hash t.target_instance_uid yaml) _
              (record {
                at = λ a g.
                    Grown-Same k t0 a (record_config_version hash t.target_instance_uid yaml a)
                      (Same-record_config_version hash t.target_instance_uid yaml a) g;
              })
              (λ _.
                Keeps-bind
                  (on_error (mark_task_failed t.id rollback_write_failed) (move_task t.id done)) _
                  (Keeps-finish t.id rollback_write_failed)
                  (λ _.
                    Keeps-bind
                      (audit approver rolled_back t.id (rollback_detail hash covers t yaml)) _
                      (Keeps-audit k t0 approver rolled_back t.id
                        (rollback_detail hash covers t yaml))
                      (λ _. Keeps-warning was_confirmed t approver))))

    pub Keeps-find_version :
        (id : ℕ) (rows : List ConfigVersion) → Keeps (Grown k t0) (find_version id rows)
    Keeps-find_version id [] = Keeps-raise k t0 version_missing
    Keeps-find_version id (v ∷ rows) = elim (Bool-cases (v.id == id)) [
      | inl e ↦ rw (e, if◌then◌else◌) (Keeps-pure k t0 v)
      | inr e ↦ rw (e, if◌then◌else◌) (Keeps-find_version id rows)
    ]
