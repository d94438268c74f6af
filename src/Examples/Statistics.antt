-- ===== src/Examples/Statistics.antt =====
-- internal/api/stats.go: the rank of a percentile and the spans of interleaved tasks.
use cadenza.Prelude.{
  ℕ, refl, ok, ◌≡◌, ◌≤◌, ◌<◌, ◌*◌, List, [], ◌∷◌, find, none, keep, length, arith, String,
}
use cadenza.Models.{TaskEvent}
use cadenza.Api.Stats.{sort, percentile, span_key, spans_from}
use cadenza.Models.{awaiting_approval}
use cadenza.Api.Http.{get}
use cadenza.Api.Stats.Requests.{stats_request}
use cadenza.Api.Stats.Totals.{counted, stats_request-counted}
use cadenza.Examples.{task_in, db_with}
use cadenza.Api.Stats.Rank.{count_le, count_lt, percentile-sort}
use cadenza.Api.Stats.Spans.{see_all, of_task, spans_from-own}

abbrev durations : List ℕ
durations = 30 ∷ 10 ∷ 20 ∷ []

percentile-sort_example :
    (90 * length durations ≤ 100 * count_le (percentile (sort durations) 90) durations)
    × (100 * count_lt (percentile (sort durations) 90) durations < 90 * length durations)
percentile-sort_example = percentile-sort 90 durations (omega arith) (omega arith) (λ h. cc)

abbrev event : ℕ → String → String → String → TaskEvent
event id task from to = record {
  id = id;
  task_id = task;
  from_status = from;
  to_status = to;
  created_at = 10 * id;
}

abbrev events : List TaskEvent
events =
    event 1 "a" "pending" "awaiting_approval"
    ∷ event 2 "b" "pending" "generating"
    ∷ event 3 "a" "awaiting_approval" "applying"
    ∷ event 4 "a" "applying" "done"
    ∷ []

spans_from-own_example :
    find span_key "a" (spans_from [] events) ≡ see_all none (keep (of_task "a") events)
spans_from-own_example = spans_from-own "a" events

stats_request-counted_example :
    stats_request get (db_with (task_in awaiting_approval))
    ≡ (ok (counted (db_with (task_in awaiting_approval))), db_with (task_in awaiting_approval))
stats_request-counted_example = stats_request-counted (db_with (task_in awaiting_approval)) refl
