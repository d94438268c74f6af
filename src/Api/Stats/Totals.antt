-- ===== src/Api/Stats/Totals.antt =====
-- internal/api/stats.go: the numbers of the dashboard.
use cadenza.Prelude.{
  ℕ, ◌+◌, ◌≡◌, refl, String, List, [], ◌∷◌, ok, length, keep, map, str_eq, eq_iff, if◌then◌else◌,
  arith,
}
use cadenza.Models.{Task, Collector, status_text, status_word}
use cadenza.Store.{Db, query}
use cadenza.Store.Lists.{
  Counts, count_one, count_grouped, count_collectors_by_status, count_tasks_by_status,
}
use cadenza.Store.Chats.{count_sessions}
use cadenza.Api.Http.{get}
use cadenza.Api.Stats.Requests.{StatsResponse, count_of, sum_of, response_of, stats_request}

-- How often a text is in a column.
abbrev pub number_of : String → List String → ℕ
number_of k ks = length (keep (λ (j : String). str_eq j k) ks)

abbrev pub collector_words : Db → List String
collector_words db = map (λ (c : Collector). status_word c.status) db.collectors

abbrev pub task_words : Db → List String
task_words db = map (λ (t : Task). status_text t.status) db.tasks

length-map : {A : Type 0} → (f : A → String) (xs : List A) → length (map f xs) ≡ length xs
length-map f [] = refl
length-map f (x ∷ xs) = let rest = length-map f xs in ground arith

sum_of-count_one : (k : String) (m : Counts) → sum_of (count_one k m) ≡ sum_of m + 1
unfolding sum_of count_one
sum_of-count_one k [] = omega arith
sum_of-count_one k ((j, n) ∷ m) = ground (arith, sum_of-count_one k m)

sum_of-count_grouped : (ks : List String) → sum_of (count_grouped ks) ≡ length ks
unfolding sum_of count_grouped
sum_of-count_grouped [] = refl
sum_of-count_grouped (k ∷ ks) =
    ground (arith, sum_of-count_one k (count_grouped ks), sum_of-count_grouped ks)

count_of-count_one :
    (k i : String) (m : Counts)
    → count_of (count_one k m) i ≡ (if str_eq k i then count_of m i + 1 else count_of m i)
unfolding count_of count_one
count_of-count_one k i [] = ground arith
count_of-count_one k i ((j, n) ∷ m) =
    ground (arith, eq_iff j k, eq_iff j i, eq_iff k i, count_of-count_one k i m)

count_of-count_grouped :
    (i : String) (ks : List String) → count_of (count_grouped ks) i ≡ number_of i ks
unfolding count_of count_grouped
count_of-count_grouped i [] = refl
count_of-count_grouped i (k ∷ ks) =
    ground (arith, count_of-count_one k i (count_grouped ks), count_of-count_grouped i ks)

-- The numbers of the dashboard, read off the rows.
abbrev pub counted : Db → StatsResponse
counted db = record {
  sessions_total = length db.sessions;
  collectors = record {
    total = length db.collectors;
    healthy = number_of "healthy" (collector_words db);
    unhealthy = number_of "unhealthy" (collector_words db);
    offline = number_of "offline" (collector_words db);
    unknown = number_of "unknown" (collector_words db);
  };
  tasks = record {
    total = length db.tasks;
    pending = number_of "pending" (task_words db);
    generating = number_of "generating" (task_words db);
    validating = number_of "validating" (task_words db);
    awaiting_approval = number_of "awaiting_approval" (task_words db);
    applying = number_of "applying" (task_words db);
    done = number_of "done" (task_words db);
    rejected = number_of "rejected" (task_words db);
    failed = number_of "failed" (task_words db);
  };
}

query-quiet :
    {A : Type 0} → (f : Db → A) (db : Db) → db.disturbances ≡ [] → query f db ≡ (ok (f db), db)
unfolding query
query-quiet f db quiet = simp quiet refl

response_of-counted :
    (db : Db)
    → response_of
        (count_grouped (collector_words db))
        (count_grouped (task_words db))
        (length db.sessions)
      ≡ counted db
response_of-counted db =
    simp
      (
        sum_of-count_grouped,
        count_of-count_grouped,
        length-map (λ (c : Collector). status_word c.status) db.collectors,
        length-map (λ (t : Task). status_text t.status) db.tasks,
      )
      refl

-- Where nothing disturbs the reads, the dashboard shows the number of all collectors, tasks and
-- sessions, and for each state the number of the rows in it; the tables stay as they are.
pub stats_request-counted :
    (db : Db) → db.disturbances ≡ [] → stats_request get db ≡ (ok (counted db), db)
unfolding stats_request count_collectors_by_status count_tasks_by_status count_sessions
stats_request-counted db quiet =
    simp
      (
        query-quiet (λ d. count_grouped (collector_words d)) db quiet,
        query-quiet (λ d. count_grouped (task_words d)) db quiet,
        query-quiet (λ d. length d.sessions) db quiet,
        response_of-counted db,
      )
      refl
