-- ===== src/Api/Stats.antt =====
-- internal/api/stats.go. A duration is an int64 of nanoseconds, and sums of int64 wrap: such a sum
-- is kept as its bits.
pub mod Rank
pub mod Requests
pub mod Totals
pub mod Spans
use cadenza.Prelude.{
  ℕ, zero, suc, ◌+◌, ◌-◌, ◌*◌, ◌/◌, ◌%◌, ◌^◌, String, Bool, true, false, not, ◌&&◌, ◌||◌, List, [],
  ◌∷◌, ◌++◌, map, Option, none, some, find, replace, keep, length, get_or, ltb, leb, ◌==◌, str_eq,
  if◌then◌else◌,
}
use cadenza.Models.{
  Task, TaskType, rollback, TaskEvent, TaskStatus, done, failed, applying, awaiting_approval,
  status_text,
}

abbrev pub max_int64 : ℕ
max_int64 = 2 ^ 63 - 1

-- The bits of a quotient, truncated towards zero, of an int64 by a positive one.
abbrev pub div_int64 : ℕ → ℕ → ℕ
div_int64 bits n = if leb bits max_int64 then bits / n else (2 ^ 64 - (2 ^ 64 - bits) / n) % 2 ^ 64

pub sum_int64 : List ℕ → ℕ
sum_int64 [] = 0
sum_int64 (x ∷ xs) = (x + sum_int64 xs) % 2 ^ 64

pub insert : ℕ → List ℕ → List ℕ
insert x [] = x ∷ []
insert x (y ∷ ys) = let rest = insert x ys in if leb x y then x ∷ y ∷ ys else y ∷ rest

-- sort.Slice on numbers
pub sort : List ℕ → List ℕ
unfolding insert
sort [] = []
sort (x ∷ xs) = insert x (sort xs)

-- The rank, counted from 1, of a percentile among n values.
abbrev pub rank : ℕ → ℕ → ℕ
rank n p = let idx = (p * n + 99) / 100 in if ltb idx 1 then 1 else if ltb n idx then n else idx

pub percentile : List ℕ → ℕ → ℕ
percentile sorted p = if length sorted == 0 then 0 else get_or sorted (rank (length sorted) p - 1) 0

pub record StatSummary : Type 0 where
  pub count : ℕ
  pub avg : ℕ
  pub p50 : ℕ
  pub p90 : ℕ

abbrev pub milliseconds : ℕ → ℕ
milliseconds d = d / 1000000

unfoldable pub summarize : List ℕ → StatSummary
unfolding sum_int64 sort percentile
summarize durations =
    let ms = map milliseconds durations in
    if length durations == 0 then record { count = 0; avg = 0; p50 = 0; p90 = 0 } else record {
      count = length durations;
      avg = div_int64 (sum_int64 ms) (length durations);
      p50 = percentile (sort ms) 50;
      p90 = percentile (sort ms) 90;
    }

-- The times of a task's events; 0 is the zero time.
pub record Span : Type 0 where
  pub task_id : String
  pub first : ℕ
  pub last : ℕ
  pub enter_wait : ℕ
  pub leave_wait : ℕ
  pub enter_apply : ℕ
  pub terminal : ℕ

abbrev pub span_key : Span → String
span_key s = s.task_id

abbrev pub fresh_span : TaskEvent → Span
fresh_span e = record {
  task_id = e.task_id;
  first = e.created_at;
  last = 0;
  enter_wait = 0;
  leave_wait = 0;
  enter_apply = 0;
  terminal = 0;
}

abbrev pub goes_to : TaskStatus → TaskEvent → Bool
goes_to s e = str_eq e.to_status (status_text s)

abbrev pub comes_from : TaskStatus → TaskEvent → Bool
comes_from s e = str_eq e.from_status (status_text s)

-- A time that is set by the first event of its kind.
abbrev pub first_time : Bool → ℕ → ℕ → ℕ
first_time here at old = if here && old == 0 then at else old

pub observe : TaskEvent → Span → Span
observe e s = record s {
  last = e.created_at;
  enter_wait = first_time (goes_to awaiting_approval e) e.created_at s.enter_wait;
  leave_wait = first_time (comes_from awaiting_approval e) e.created_at s.leave_wait;
  enter_apply = first_time (goes_to applying e) e.created_at s.enter_apply;
  terminal = if goes_to done e || goes_to failed e then e.created_at else s.terminal;
}

-- The map of spans, in the order in which its keys were added.
pub add_event : TaskEvent → List Span → List Span
unfolding observe
add_event e spans = elim (find span_key e.task_id spans) [
  | none ↦ spans ++ observe e (fresh_span e) ∷ []
  | some _ ↦ replace span_key e.task_id (observe e) spans
]

pub spans_from : List Span → List TaskEvent → List Span
unfolding add_event
spans_from spans [] = spans
spans_from spans (e ∷ events) = spans_from (add_event e spans) events

-- late.Sub(early), which saturates
abbrev pub sub_time : ℕ → ℕ → ℕ
sub_time late early = if leb (late - early) max_int64 then late - early else max_int64

-- A duration between two times that are set, if it is positive.
abbrev pub between : ℕ → ℕ → List ℕ
between early late =
    if not (early == 0) && not (late == 0) && ltb early late then sub_time late early ∷ [] else []

abbrev pub wait_of : Span → List ℕ
wait_of s = between s.enter_wait s.leave_wait

abbrev pub dispatch_of : Span → List ℕ
dispatch_of s = between (if s.enter_apply == 0 then s.first else s.enter_apply) s.terminal

abbrev pub is_rollback : TaskType → Bool
is_rollback rollback = true
is_rollback _ = false

pub has_rollback : String → List Task → Bool
has_rollback id [] = false
has_rollback id (t ∷ tasks) = is_rollback t.type && str_eq t.id id || has_rollback id tasks

abbrev pub rollback_of : List Task → Span → List ℕ
rollback_of tasks s = if has_rollback s.task_id tasks then between s.first s.terminal else []

pub gather : (Span → List ℕ) → List Span → List ℕ
gather f [] = []
gather f (s ∷ spans) = f s ++ gather f spans

abbrev pub is_done : Task → Bool
is_done t = elim t.status [ done ↦ true | _ ↦ false ]

abbrev pub is_failed : Task → Bool
is_failed t = elim t.status [ failed ↦ true | _ ↦ false ]

-- The success rate is the quotient of `done_count` by the sum of both counts, or 0.
pub record OpsStats : Type 0 where
  pub window_days : ℕ
  pub total : ℕ
  pub done_count : ℕ
  pub failed_count : ℕ
  pub approval_wait_ms : StatSummary
  pub dispatch_ms : StatSummary
  pub rollback_count : ℕ
  pub rollback_avg_ms : ℕ

unfoldable pub compute_ops_stats : ℕ → List Task → List TaskEvent → OpsStats
unfolding summarize spans_from gather has_rollback
compute_ops_stats window_days tasks events =
    let spans = spans_from [] events in
    let rollbacks = gather (rollback_of tasks) spans in
    record {
      window_days = window_days;
      total = length tasks;
      done_count = length (keep is_done tasks);
      failed_count = length (keep is_failed tasks);
      approval_wait_ms = summarize (gather wait_of spans);
      dispatch_ms = summarize (gather dispatch_of spans);
      rollback_count = length rollbacks;
      rollback_avg_ms =
          if length rollbacks == 0
          then 0
          else div_int64 (div_int64 (sum_int64 rollbacks) (length rollbacks)) 1000000;
    }
