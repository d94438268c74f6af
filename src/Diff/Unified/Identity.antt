-- ===== src/Diff/Unified/Identity.antt =====
-- internal/diff/diff.go: when `Unified` returns the empty text.
use cadenza.Prelude.{
  ◌*◌, ◌<◌, ◌≤◌, ◌≡◌, ◌≢◌, ◌↔◌, ◌⊎◌, refl, sym, subst, ◌∙◌, true, false, inl, inr, Bool-cases, List,
  [], ◌∷◌, Bytes, length, ltb, arith,
}
use cadenza.Diff.{Op, max_dp_cells, lcs_ops, has_change}
use cadenza.Diff.Script.{old_lines-eq-new_lines, lcs_ops-lines, has_change-lcs_ops_self}
use cadenza.Diff.Unified.{render, script, removals, unified_lines, unified, split_lines}

render-ne-nil : (ops : List Op) → render ops ≢ []
unfolding render
render-ne-nil ops h = cc

abbrev Small : List Bytes → List Bytes → Type 0
Small al bl = length al * length bl ≤ max_dp_cells

script-Small : (al bl : List Bytes) → Small al bl → script al bl ≡ lcs_ops al bl
unfolding script
script-Small al bl h = ground arith

eq_of_unchanged : (al bl : List Bytes) → has_change (lcs_ops al bl) ≡ false → al ≡ bl
eq_of_unchanged al bl h =
    let (old, new) = lcs_ops-lines al bl in sym old ∙ old_lines-eq-new_lines (lcs_ops al bl) h ∙ new

unified_lines_cases :
    (al bl : List Bytes)
    → unified_lines al bl ≡ []
    → (al ≡ bl) ⊎ (has_change (script al bl) ≡ false)
unfolding unified_lines
unified_lines_cases [] [] h = inl refl
unified_lines_cases [] (y ∷ ys) h = ground (arith, render-ne-nil (script [] (y ∷ ys)))
unified_lines_cases (x ∷ xs) bl h = ground (arith, render-ne-nil (script (x ∷ xs) bl))

unified_lines_unchanged :
    (al bl : List Bytes) → has_change (script al bl) ≡ false → unified_lines al bl ≡ []
unfolding unified_lines
unified_lines_unchanged [] [] h = refl
unified_lines_unchanged [] (y ∷ ys) h = ground arith
unified_lines_unchanged (x ∷ xs) bl h = ground arith

script_large :
    (x : Bytes) (xs bl : List Bytes)
    → max_dp_cells < length (x ∷ xs) * length bl
    → has_change (script (x ∷ xs) bl) ≡ true
unfolding script removals has_change
script_large x xs bl h = ground arith

unified_lines_large :
    (al bl : List Bytes) → max_dp_cells < length al * length bl → unified_lines al bl ≢ []
unfolding unified_lines
unified_lines_large [] bl h e = absurd (omega arith)
unified_lines_large (x ∷ xs) bl h e =
    ground (arith, script_large x xs bl h, render-ne-nil (script (x ∷ xs) bl))

-- The diff is empty exactly when both texts split into the same lines and the table for them fits
-- its limit: past the limit, texts with the same lines have a diff, too.
pub unified-eq-nil_iff :
    (a b : Bytes)
    → (unified a b ≡ []) ↔ (
        (split_lines a ≡ split_lines b)
        × (length (split_lines a) * length (split_lines b) ≤ max_dp_cells))
unfolding unified
unified-eq-nil_iff a b =
    let al = split_lines a in
    let bl = split_lines b in
    (
      λ h.
          let small : Small al bl = elim (Bool-cases (ltb max_dp_cells (length al * length bl))) [
            | inl large ↦ absurd (unified_lines_large al bl (ground arith) h)
            | inr small ↦ ground arith
          ] in
          elim (unified_lines_cases al bl h) [
            | inl e ↦ (e, small)
            | inr u ↦ (
              eq_of_unchanged al bl
                  (subst (λ s. has_change s ≡ false) (script-Small al bl small) u),
              small,
            )
          ],
      λ (e, small).
          unified_lines_unchanged al bl
            (rw (script-Small al bl small, e) (has_change-lcs_ops_self bl)),
    )
