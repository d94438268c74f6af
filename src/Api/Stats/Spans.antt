-- ===== src/Api/Stats/Spans.antt =====
-- internal/api/stats.go: the span of a task is made of its own events, in their order.
use cadenza.Prelude.{
  ◌≡◌, refl, ap, ◌∙◌, String, Bool, List, [], ◌∷◌, Option, none, some, find, keep, find-replace,
  find-append, find-append_ne, str_eq, eq_iff, if◌then◌else◌, arith, Bool-cases, inl, inr,
}
use cadenza.Models.{TaskEvent}
use cadenza.Api.Stats.{Span, span_key, fresh_span, observe, add_event, spans_from}

-- One event of the task on what is known of it.
abbrev pub see : TaskEvent → Option Span → Option Span
see e none = some (observe e (fresh_span e))
see e (some s) = some (observe e s)

pub see_all : Option Span → List TaskEvent → Option Span
see_all o [] = o
see_all o (e ∷ events) = see_all (see e o) events

abbrev pub of_task : String → TaskEvent → Bool
of_task id e = str_eq e.task_id id

find-add_event :
    (id : String) (e : TaskEvent) (spans : List Span)
    → find span_key id (add_event e spans)
      ≡ (if of_task id e then see e (find span_key id spans) else find span_key id spans)
unfolding add_event observe
find-add_event id e spans = ground (
  arith,
  find-append span_key id (observe e (fresh_span e)) spans,
  find-append_ne span_key id (observe e (fresh_span e)) spans,
  find-replace span_key e.task_id id (observe e) spans (λ x. refl),
  eq_iff e.task_id id,
)

find-spans_from :
    (id : String) (events : List TaskEvent) (spans : List Span)
    → find span_key id (spans_from spans events)
      ≡ see_all (find span_key id spans) (keep (of_task id) events)
unfolding spans_from see_all
find-spans_from id [] spans = refl
find-spans_from id (e ∷ events) spans = elim (Bool-cases (of_task id e)) [
  | inl own ↦
      find-spans_from id events (add_event e spans)
      ∙ rw own
          (ap (λ o. see_all o (keep (of_task id) events)) (find-add_event id e spans ∙ rw own refl))
  | inr other ↦
      find-spans_from id events (add_event e spans)
      ∙ rw other (
          ap (λ o. see_all o (keep (of_task id) events))
            (find-add_event id e spans ∙ rw other refl))
]

-- However the events of many tasks are interleaved, the span of a task is what its own events,
-- taken alone and in their order, make of it.
pub spans_from-own :
    (id : String) (events : List TaskEvent)
    → find span_key id (spans_from [] events) ≡ see_all none (keep (of_task id) events)
unfolding find
spans_from-own id events = find-spans_from id events []
