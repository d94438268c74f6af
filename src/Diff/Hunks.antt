-- ===== src/Diff/Hunks.antt =====
-- internal/diff/diff.go: `hunks`. The list `spans` is kept with its last element first, since the
-- loop changes only that one; `ops` is what the cursor has not passed.
use mathlib.Core.List.{reverse}
use cadenza.Prelude.{ℕ, zero, suc, ◌+◌, ◌-◌, List, [], ◌∷◌, ltb, leb, length, ◌==◌, if◌then◌else◌}
use cadenza.Diff.{Op, removed, added, context_lines, is_change}

pub record Span : Type 0 where
  pub start : ℕ
  pub stop : ℕ

pub record Hunk : Type 0 where
  pub a_start : ℕ
  pub a_count : ℕ
  pub b_start : ℕ
  pub b_count : ℕ
  pub ops : List Op

-- The indices of the changes, from index i on.
pub changed_from : ℕ → List Op → List ℕ
changed_from i [] = []
changed_from i (o ∷ ops) =
    let rest = changed_from (i + 1) ops in if is_change o then i ∷ rest else rest

-- The span of one change among n operations.
abbrev pub around : ℕ → ℕ → Span
around n idx = record {
  start = idx - context_lines;
  stop = if ltb n (idx + context_lines + 1) then n else idx + context_lines + 1;
}

pub add_span : ℕ → List Span → ℕ → List Span
add_span n [] idx = around n idx ∷ []
add_span n (last ∷ older) idx =
    let s = around n idx in
    if leb s.start last.stop
    then record last { stop = if ltb last.stop s.stop then s.stop else last.stop } ∷ older
    else s ∷ last ∷ older

pub add_spans : ℕ → List Span → List ℕ → List Span
unfolding add_span
add_spans n acc [] = acc
add_spans n acc (idx ∷ rest) = add_spans n (add_span n acc idx) rest

pub spans : List Op → List Span
unfolding add_spans changed_from
spans ops = reverse (add_spans (length ops) [] (changed_from 0 ops))

-- How many lines of either side an operation takes.
abbrev pub old_count : Op → ℕ
old_count o = elim o.kind [ added ↦ 0 | _ ↦ 1 ]

abbrev pub new_count : Op → ℕ
new_count o = elim o.kind [ removed ↦ 0 | _ ↦ 1 ]

abbrev pub old_total : List Op → ℕ
old_total [] = 0
old_total (o ∷ ops) = old_count o + old_total ops

abbrev pub new_total : List Op → ℕ
new_total [] = 0
new_total (o ∷ ops) = new_count o + new_total ops

-- The position of the cursor: the next line of either side, and the operations not yet passed.
pub record Cursor : Type 0 where
  pub a_line : ℕ
  pub b_line : ℕ
  pub left : List Op

-- The loop up to the start of a span: k operations are passed.
pub advance : ℕ → ℕ → ℕ → List Op → Cursor
advance zero a b ops = record { a_line = a; b_line = b; left = ops }
advance (suc k) a b [] = record { a_line = a; b_line = b; left = [] }
advance (suc k) a b (o ∷ ops) = advance k (a + old_count o) (b + new_count o) ops

-- The loop up to the end of a span: k operations go into the hunk.
pub collect : ℕ → List Op → List Op
collect zero ops = []
collect (suc k) [] = []
collect (suc k) (o ∷ ops) = o ∷ collect k ops

-- By the convention of git, an empty side starts at the line before the change.
pub hunk_at : ℕ → ℕ → List Op → Hunk
hunk_at a b ops = record {
  a_start = if old_total ops == 0 then a - 1 else a;
  a_count = old_total ops;
  b_start = if new_total ops == 0 then b - 1 else b;
  b_count = new_total ops;
  ops = ops;
}

pub hunks_from : List Span → ℕ → Cursor → List Hunk
unfolding advance collect hunk_at
hunks_from [] cursor c = []
hunks_from (sp ∷ rest) cursor c =
    let at = advance (sp.start - cursor) c.a_line c.b_line c.left in
    let taken = collect (sp.stop - sp.start) at.left in
    hunk_at at.a_line at.b_line taken
    ∷ hunks_from rest sp.stop (advance (sp.stop - sp.start) at.a_line at.b_line at.left)

unfoldable pub hunks : List Op → List Hunk
unfolding spans hunks_from
hunks ops = hunks_from (spans ops) 0 (record { a_line = 1; b_line = 1; left = ops })
