-- ===== src/Api/Changes/Lives.antt =====
-- internal/api: the steps of a request, and the state machine.
use cadenza.Prelude.{String, Bool, true, false, not, Option, Keeps, Keeps-bind}
use cadenza.Models.{Task}
use cadenza.Store.Pages.{list_config_versions}
use cadenza.Store.Tables.{get_collector, get_task}
use cadenza.Store.Tables.Others.{tasks-get_collector, tasks-list_config_versions}
use cadenza.Agent.{on_db, reject_task}
use cadenza.Agent.Dispatch.Lives.{Grown, Keeps-spares, Keeps-audit}
use cadenza.Agent.Dispatch.Rows.{Keeps-create_timed, Keeps-get_task, Keeps-reject_task}
use cadenza.Agent.Dispatch.Machine.{Keeps-dispatch_approve}
use cadenza.Agent.Dispatch.{dispatch_approve}
use cadenza.Api.Http.{
  Method, is_post, refuse_if, or_refuse, refuse_as, always, missing_or_bad, approver_of,
}
use cadenza.Api.Http.Steps.{Keeps-answer, Keeps-refuse_if, Keeps-or_refuse, Keeps-refuse_as}
use cadenza.Api.Changes.Steps.{Steps}
use cadenza.Api.Changes.{
  create_now, RejectRequest, body_approver, reject_request, approve_request, answer_apply,
}

module _ (k : String) (t0 : Task) where
  pub Keeps-create_now : (t : Task) → Keeps (Grown k t0) (create_now t)
  unfolding create_now
  Keeps-create_now t = Keeps-create_timed k t0 t

module _ (k : String) (t0 : Task) (hash : String → String) (covers : String → String → Bool) where
  pub Keeps-approve_request :
      (method : Method) (username : String) (body : Option String) (id : String)
      → Keeps (Grown k t0) (approve_request hash covers method username body id)
  unfolding approve_request
  Keeps-approve_request method username body id =
      Keeps-bind (refuse_if (not (is_post method)) 405) _
        (Keeps-refuse_if (Grown k t0) (not (is_post method)) 405)
        (λ _.
          let who = approver_of username (body_approver body) in
          Keeps-bind (refuse_as missing_or_bad (dispatch_approve hash covers id who)) _
            (Keeps-refuse_as (Grown k t0) missing_or_bad (dispatch_approve hash covers id who)
              (Keeps-dispatch_approve k t0 hash covers id who))
            (λ done. Keeps-answer (Grown k t0) (200, done)))

  pub Keeps-answer_apply :
      (require_approval : Bool) (approver : String) (t : Task)
      → Keeps (Grown k t0) (answer_apply hash covers require_approval approver t)
  unfolding answer_apply
  Keeps-answer_apply true approver t = Keeps-answer (Grown k t0) (201, t)
  Keeps-answer_apply false approver t =
      Keeps-bind (refuse_as (always 502) (dispatch_approve hash covers t.id approver)) _
        (Keeps-refuse_as (Grown k t0) (always 502) (dispatch_approve hash covers t.id approver)
          (Keeps-dispatch_approve k t0 hash covers t.id approver))
        (λ _.
          Keeps-bind (refuse_as (always 500) (on_db (get_task t.id))) _
            (Keeps-refuse_as (Grown k t0) (always 500) (on_db (get_task t.id))
              (Keeps-get_task k t0 t.id))
            (λ updated. Keeps-answer (Grown k t0) (200, updated)))

module _ (k : String) (t0 : Task) where
  pub Keeps-reject_request :
      (method : Method) (username : String) (body : Option RejectRequest) (id : String)
      → Keeps (Grown k t0) (reject_request method username body id)
  unfolding reject_request
  Keeps-reject_request method username body id =
      Keeps-bind (refuse_if (not (is_post method)) 405) _
        (Keeps-refuse_if (Grown k t0) (not (is_post method)) 405)
        (λ _. Keeps-bind (or_refuse 400 body) _ (Keeps-or_refuse (Grown k t0) 400 body) (λ req.
          let rejecting = reject_task id (approver_of username req.approver) req.reason in
          Keeps-bind (refuse_as missing_or_bad rejecting) _
            (Keeps-refuse_as (Grown k t0) missing_or_bad rejecting
              (Keeps-reject_task k t0 id (approver_of username req.approver) req.reason))
            (λ t. Keeps-answer (Grown k t0) (200, t))))

  pub Grown-Steps : Steps (Grown k t0)
  Grown-Steps = record {
    creates = Keeps-create_now k t0;
    audits = Keeps-audit k t0;
    reads_collector = λ uid. Keeps-spares k t0 (get_collector uid) (tasks-get_collector uid);
    reads_versions = λ uid.
        Keeps-spares k t0 (list_config_versions uid 0 0) (tasks-list_config_versions uid 0 0);
  }
