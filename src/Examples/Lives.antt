-- ===== src/Examples/Lives.antt =====
-- internal/task/task.go: tasks that are approved, refused and tried again.
use cadenza.Prelude.{◌≡◌, inr, refl, [], ◌∷◌, List, find, err, arith}
use cadenza.Models.{TaskStatus, generating, validating, awaiting_approval, applying, done, failed}
use cadenza.Store.{illegal_transition, Db}
use cadenza.Store.Tables.{task_key}
use cadenza.Task.{can_transition}
use cadenza.Task.Calls.{approve_call, run_call}
use cadenza.Task.Machine.{Life, stay, move, EndsApproved, done_needs_approval}
use cadenza.Task.Outcome.{approve_not_waiting, run_call_error}
use cadenza.Task.Trace.{Follows, run_call-Follows}
use cadenza.Examples.{task_in, db_with}

abbrev whole_path : List TaskStatus
whole_path = generating ∷ validating ∷ awaiting_approval ∷ applying ∷ done ∷ []

whole-Life : Life failed whole_path done
unfolding can_transition
whole-Life =
    move generating refl (
      move validating refl (move awaiting_approval refl (move applying refl (move done refl stay))))

done_needs_approval_example : EndsApproved whole_path
done_needs_approval_example = done_needs_approval (inr refl) whole-Life

abbrev waiting_db : Db
waiting_db = db_with (task_in awaiting_approval)

run_call-Follows_example :
    Follows
      (find task_key "t1" waiting_db.tasks)
      (find task_key "t1" (run_call (approve_call 9 "t1" "amy") waiting_db).1.tasks)
run_call-Follows_example = run_call-Follows (approve_call 9 "t1" "amy") waiting_db "t1"

refused_call :
    (run_call (approve_call 9 "t1" "amy") (db_with (task_in done))).0
    ≡ err (illegal_transition done applying)
unfolding run_call
refused_call = ground (
  arith,
  approve_not_waiting 9 "t1" "amy" (db_with (task_in done)) (task_in done) refl
      (unfold find in refl) (λ h. cc),
)

run_call_error_example :
    ((run_call (approve_call 9 "t1" "amy") (db_with (task_in done))).1.tasks ≡ task_in done ∷ [])
    × ((run_call (approve_call 9 "t1" "amy") (db_with (task_in done))).1.events ≡ [])
run_call_error_example =
    run_call_error (approve_call 9 "t1" "amy") (db_with (task_in done)) refused_call
