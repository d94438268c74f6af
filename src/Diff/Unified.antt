-- ===== src/Diff/Unified.antt =====
-- internal/diff/diff.go: `splitLines`, `render` and `Unified`.
pub mod Identity
use cadenza.Prelude.{
  ℕ, zero, suc, ◌+◌, ◌*◌, ◌<◌, ◌≤◌, ◌≡◌, ◌≢◌, ◌↔◌, refl, sym, ap, ◌∙◌, Bool, true, false, inl, inr,
  Bool-cases, List, [], ◌∷◌, ◌++◌, Bytes, bytes, newline, carriage_return, decimal, length, ltb,
  ◌==◌, ◌&&◌, if◌then◌else◌, arith,
}
use cadenza.Diff.{Op, op, Kind, context, removed, added, max_dp_cells, lcs_ops, has_change}
use cadenza.Diff.Hunks.{Hunk, hunks}
use cadenza.Diff.Script.{old_lines-eq-new_lines, lcs_ops-lines, has_change-lcs_ops_self}

-- ReplaceAll of CR LF by LF: a CR before a LF is dropped.
pub normalise : Bytes → Bytes
normalise [] = []
normalise (c ∷ []) = c ∷ []
normalise (c ∷ d ∷ s) =
    let rest = normalise (d ∷ s) in
    if (c == carriage_return) && (d == newline) then rest else c ∷ rest

-- TrimSuffix of one LF
pub trim_newline : Bytes → Bytes
trim_newline [] = []
trim_newline (c ∷ []) = if c == newline then [] else c ∷ []
trim_newline (c ∷ d ∷ s) = c ∷ trim_newline (d ∷ s)

prepend : ℕ → List Bytes → List Bytes
prepend c [] = (c ∷ []) ∷ []
prepend c (l ∷ ls) = (c ∷ l) ∷ ls

-- Split at each LF
pub split_newlines : Bytes → List Bytes
unfolding prepend
split_newlines [] = [] ∷ []
split_newlines (c ∷ s) =
    let rest = split_newlines s in if c == newline then [] ∷ rest else prepend c rest

pub split_trimmed : Bytes → List Bytes
unfolding split_newlines
split_trimmed [] = [] ∷ []
split_trimmed (c ∷ s) = split_newlines (c ∷ s)

pub split_normal : Bytes → List Bytes
unfolding split_trimmed trim_newline
split_normal [] = []
split_normal (c ∷ s) = split_trimmed (trim_newline (c ∷ s))

pub split_lines : Bytes → List Bytes
unfolding normalise split_normal
split_lines s = split_normal (normalise s)

abbrev pub kind_byte : Kind → ℕ
kind_byte context = 32
kind_byte removed = 45
kind_byte added = 43

pub render_ops : List Op → Bytes
render_ops [] = []
render_ops (o ∷ ops) = kind_byte o.kind ∷ o.text ++ newline ∷ render_ops ops

pub render_hunk : Hunk → Bytes
unfolding render_ops decimal
render_hunk h =
    bytes "@@ -"
    ++ decimal h.a_start
    ++ bytes ","
    ++ decimal h.a_count
    ++ bytes " +"
    ++ decimal h.b_start
    ++ bytes ","
    ++ decimal h.b_count
    ++ bytes " @@"
    ++ newline ∷ render_ops h.ops

pub render_hunks : List Hunk → Bytes
unfolding render_hunk
render_hunks [] = []
render_hunks (h ∷ hs) = render_hunk h ++ render_hunks hs

pub render : List Op → Bytes
unfolding render_hunks hunks
render ops = bytes "--- a" ++ newline ∷ bytes "+++ b" ++ newline ∷ render_hunks (hunks ops)

pub removals : List Bytes → List Op
removals [] = []
removals (l ∷ ls) = op removed l ∷ removals ls

pub additions : List Bytes → List Op
additions [] = []
additions (l ∷ ls) = op added l ∷ additions ls

-- The operations of `Unified`: past the limit on the table, one block replaces the other.
pub script : List Bytes → List Bytes → List Op
unfolding removals additions
script al bl =
    if ltb max_dp_cells (length al * length bl) then removals al ++ additions bl else lcs_ops al bl

pub unified_lines : List Bytes → List Bytes → Bytes
unfolding script has_change render
unified_lines [] [] = []
unified_lines al bl = let ops = script al bl in if has_change ops then render ops else []

pub unified : Bytes → Bytes → Bytes
unfolding split_lines unified_lines
unified a b = unified_lines (split_lines a) (split_lines b)
