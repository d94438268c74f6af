-- ===== src/Api/Changes/Quiet.antt =====
-- internal/api: what the requests leave to an approval.
use cadenza.Prelude.{String, refl, Bool, true, Option, Keeps-bind}
use cadenza.Store.Pages.{list_config_versions}
use cadenza.Store.Tables.{get_collector}
use cadenza.Task
use cadenza.Task.{record_event}
use cadenza.Agent.{Agent, on_db, now}
use cadenza.Agent.Quiet.{IsQuiet, Keeps-on_db, Keeps-now, Keeps-audit}
use cadenza.Api.Http.{Method}
use cadenza.Api.Changes.{create_now, ApplyRequest, answer_apply, apply_request}
use cadenza.Api.Changes.Rollback.{RollbackRequest, rollback_request}
use cadenza.Api.Sources.{Console, Site}
use cadenza.Api.Http.Steps.{Keeps-answer}
use cadenza.Api.Changes.Steps.{Steps, Keeps-apply_request, Keeps-rollback_request}

module _ (before : Agent) where
  IsQuiet-Steps : Steps (IsQuiet before)
  unfolding create_now
  IsQuiet-Steps = record {
    creates = λ t.
        Keeps-bind now (λ time. on_db (Task.create time t)) (Keeps-now before)
          (λ time. Keeps-on_db before (Task.create time t));
    audits = Keeps-audit before;
    reads_collector = λ uid. Keeps-on_db before (get_collector uid);
    reads_versions = λ uid. Keeps-on_db before (list_config_versions uid 0 0);
  }

-- Where approval is required, neither an application of a configuration nor a rollback sends
-- anything to an agent, leaves anything to be sent, or changes the registry, whatever the request
-- and whatever the repository answers.
pub changes-IsQuiet :
    (hash : String → String) (covers : String → String → Bool) (valid : String → Bool) (site : Site)
    (id : String) (method : Method) (username : String) (wanted : Option ApplyRequest)
    (rolled : Option RollbackRequest) (c : Console)
    → IsQuiet c.agent
        (apply_request hash covers valid true site id method username wanted c).1.agent
      × IsQuiet c.agent (rollback_request valid site id method username rolled c).1.agent
unfolding answer_apply
changes-IsQuiet hash covers valid site id method username wanted rolled c =
    let quiet = IsQuiet c.agent in
    let start : IsQuiet c.agent c.agent = (refl, refl, refl) in
    (
      (Keeps-apply_request quiet (IsQuiet-Steps c.agent) hash covers true
            (λ approver t. Keeps-answer quiet (201, t)) valid site id method username wanted).at
          c start,
      (Keeps-rollback_request quiet (IsQuiet-Steps c.agent) valid site id method username rolled).at
          c start,
    )
