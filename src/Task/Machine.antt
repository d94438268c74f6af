-- ===== src/Task/Machine.antt =====
-- internal/task/task.go: what the transitions allow over a whole life.
use cadenza.Prelude.{
  ◌≡◌, ◌⊎◌, inl, inr, refl, true, false, List, [], ◌∷◌, arith, ap, sym, ◌∙◌, ◌++◌, Option, none,
  some, Bool, not,
}
use cadenza.Models.{
  TaskStatus, pending, awaiting_approval, applying, done, rejected, failed, eq_of_same_status,
  same_status,
}
use cadenza.Task.{can_transition}

-- A sequence of permitted transitions, with the states that it enters.
pub data Life : TaskStatus → List TaskStatus → TaskStatus → Type 0 where
  stay : {s : TaskStatus} → Life s [] s
  move :
      {s u : TaskStatus} {path : List TaskStatus} (t : TaskStatus)
      → can_transition s t ≡ true
      → Life t path u
      → Life s (t ∷ path) u

-- The states that lead from a state to `done` with no failure in between.
abbrev finish : TaskStatus → Option (List TaskStatus)
finish awaiting_approval = some (applying ∷ done ∷ [])
finish applying = some (done ∷ [])
finish done = some []
finish _ = none

abbrev pub EndsApproved : List TaskStatus → Type 0
EndsApproved path =
    (before : List TaskStatus) × (path ≡ before ++ awaiting_approval ∷ applying ∷ done ∷ [])

finish-step :
    (s t : TaskStatus) (q : List TaskStatus)
    → can_transition s t ≡ true
    → finish t ≡ some q
    → EndsApproved (t ∷ q) ⊎ (finish s ≡ some (t ∷ q))
unfolding can_transition
finish-step s awaiting_approval q h e =
    let e' : q ≡ applying ∷ done ∷ [] = cc in inl ([], ap (λ l. awaiting_approval ∷ l) e')
finish-step s applying q h e =
    let e' : q ≡ done ∷ [] = cc in
    let e'' : s ≡ awaiting_approval = eq_of_same_status s awaiting_approval h in inr (rw (e', e''))
finish-step s done q h e =
    let e' : q ≡ [] = cc in
    let e'' : s ≡ applying = eq_of_same_status s applying h in inr (rw (e', e''))
finish-step s pending q h e = cc
finish-step s _ q h e = cc

Life-cases :
    {s : TaskStatus} {path : List TaskStatus}
    → Life s path done
    → EndsApproved path ⊎ (finish s ≡ some path)
Life-cases stay = inr refl
Life-cases {s} (move {path = path} t h rest) = elim (Life-cases rest) [
  | inl (before, e) ↦ inl (t ∷ before, ap (λ l. t ∷ l) e)
  | inr e ↦ finish-step s t path h e
]

-- However often a task fails and is tried again, a life that starts as a new task or a failed one
-- and ends in `done` ends with the wait for an approval, the dispatch and `done`, in this order.
pub done_needs_approval :
    {s : TaskStatus} {path : List TaskStatus}
    → (s ≡ pending) ⊎ (s ≡ failed)
    → Life s path done
    → EndsApproved path
done_needs_approval start life = elim (Life-cases life) [
  | inl ends ↦ ends
  | inr e ↦ elim start [
    | inl p ↦ absurd (none-ne-some (sym (ap finish p) ∙ e))
    | inr p ↦ absurd (none-ne-some (sym (ap finish p) ∙ e))
  ]
]
  where
    none-ne-some : {l : List TaskStatus} → none ≡ some l → ⊥
    none-ne-some h = cc

abbrev IsTerminal : TaskStatus → Type 0
IsTerminal s = (s ≡ done) ⊎ (s ≡ rejected)

no_step_from_terminal : (s t : TaskStatus) → IsTerminal s → can_transition s t ≡ false
unfolding can_transition
no_step_from_terminal s pending h = ground arith
no_step_from_terminal s _ h = ground arith

-- A task that is done or rejected never changes its state again.
pub terminal_stays :
    {s u : TaskStatus} {path : List TaskStatus}
    → (s ≡ done) ⊎ (s ≡ rejected)
    → Life s path u
    → (path ≡ []) × (u ≡ s)
terminal_stays final stay = (refl, refl)
terminal_stays {s} final (move t h rest) = let stuck = no_step_from_terminal s t final in cc

-- What a task can have become, whichever way: nothing leaves `done` and `rejected`, nothing leads
-- back to `pending`, and the rest is open.
abbrev pub may_become : TaskStatus → TaskStatus → Bool
may_become done u = same_status u done
may_become rejected u = same_status u rejected
may_become pending u = true
may_become s u = not (same_status u pending)

may_become_refl : (s : TaskStatus) → may_become s s ≡ true
unfolding same_status
may_become_refl done = refl
may_become_refl rejected = refl
may_become_refl pending = refl
may_become_refl _ = refl

may_become-move :
    (s t u : TaskStatus) → can_transition s t ≡ true → may_become t u ≡ true → may_become s u ≡ true
unfolding can_transition same_status
may_become-move pending t u h m = refl
may_become-move done t u h m = let stuck = no_step_from_terminal done t (inl refl) in cc
may_become-move rejected t u h m = let stuck = no_step_from_terminal rejected t (inr refl) in cc
may_become-move _ pending u h m = cc
may_become-move _ _ pending h m = cc
may_become-move _ _ _ h m = refl

pub Life-may_become :
    {s u : TaskStatus} {path : List TaskStatus} → Life s path u → may_become s u ≡ true
Life-may_become {s} stay = may_become_refl s
Life-may_become {s} {u} (move t h rest) = may_become-move s t u h (Life-may_become rest)
