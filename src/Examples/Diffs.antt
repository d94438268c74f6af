-- ===== src/Examples/Diffs.antt =====
-- internal/diff/diff.go: the diff of two small texts.
use cadenza.Prelude.{◌≡◌, ◌↔◌, ◌≤◌, ◌*◌, List, [], ◌∷◌, Bytes, bytes, length}
use cadenza.Diff.{lcs_ops, max_dp_cells}
use cadenza.Diff.Script.{old_lines, new_lines, lcs_ops-lines}
use cadenza.Diff.Subsequence.{Subsequence, kept, lcs_ops_longest}
use cadenza.Diff.Unified.{split_lines, unified}
use cadenza.Diff.Unified.Identity.{unified-eq-nil_iff}

abbrev old_text : List Bytes
old_text = bytes "a" ∷ bytes "b" ∷ []

abbrev new_text : List Bytes
new_text = bytes "b" ∷ bytes "c" ∷ []

lcs_ops-lines_example :
    (old_lines (lcs_ops old_text new_text) ≡ old_text)
    × (new_lines (lcs_ops old_text new_text) ≡ new_text)
lcs_ops-lines_example = lcs_ops-lines old_text new_text

lcs_ops_longest_example : length (bytes "b" ∷ []) ≤ kept (lcs_ops old_text new_text)
lcs_ops_longest_example =
    lcs_ops_longest old_text new_text (bytes "b" ∷ [])
      (Subsequence.skip (bytes "a") (Subsequence.take (bytes "b") Subsequence.done))
      (Subsequence.take (bytes "b") (Subsequence.skip (bytes "c") Subsequence.done))

unified-eq-nil_iff_example : (unified (bytes "a\n") (bytes "b") ≡ []) ↔ (
    (split_lines (bytes "a\n") ≡ split_lines (bytes "b"))
    × (length (split_lines (bytes "a\n")) * length (split_lines (bytes "b")) ≤ max_dp_cells))
unified-eq-nil_iff_example = unified-eq-nil_iff (bytes "a\n") (bytes "b")
