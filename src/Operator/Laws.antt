-- ===== src/Operator/Laws.antt =====
-- What a report says of a pass.
use world_infra.Prelude.{
  ℕ, ◌+◌, ◌≤◌, ◌≡◌, false, ◌||◌, none, some, List, [], ◌∷◌, ◌++◌, append_assoc, append-nil, length,
  ltb, if◌then◌else◌, arith, sym, Option-cases, inl, inr,
}
use world_infra.Text.{Text}
use world_infra.Operator.{
  usize_max, is_noop, OperatorActionResult, OperatorRunReport, apply_report, record_result, has_any,
  needs_attention,
}

module _ {ℓ} {Item : Type ℓ} where
  -- The report after a pass, one result after the other.
  unfoldable pub record_all :
      OperatorRunReport → List (OperatorActionResult Item) → OperatorRunReport
  record_all report [] = report
  record_all report (result ∷ results) = record_all (record_result report result) results

  abbrev pub eligible_in : List (OperatorActionResult Item) → ℕ
  eligible_in [] = 0
  eligible_in (r ∷ rs) = (if is_noop r.action then 0 else 1) + eligible_in rs

  abbrev pub changed_in : List (OperatorActionResult Item) → ℕ
  changed_in [] = 0
  changed_in (r ∷ rs) = (if r.changed then 1 else 0) + changed_in rs

  abbrev pub warned_in : List (OperatorActionResult Item) → List Text
  warned_in [] = []
  warned_in (r ∷ rs) = elim r.warning [ none ↦ warned_in rs | some w ↦ w ∷ warned_in rs ]

  record_all-counts :
      (report : OperatorRunReport) (rs : List (OperatorActionResult Item))
      → report.inspected + length rs ≤ usize_max
      → report.eligible ≤ report.inspected
      → report.changed ≤ report.inspected
      → ((record_all report rs).inspected ≡ report.inspected + length rs)
        × ((record_all report rs).eligible ≡ report.eligible + eligible_in rs)
        × ((record_all report rs).changed ≡ report.changed + changed_in rs)
        × ((record_all report rs).dry_run ≡ report.dry_run)
  unfolding record_all record_result
  record_all-counts report [] b e c = ground arith
  record_all-counts report (r ∷ rs) b e c =
      ground (arith, record_all-counts (record_result report r) rs)

  record_all-warnings :
      (report : OperatorRunReport) (rs : List (OperatorActionResult Item))
      → (record_all report rs).warnings ≡ report.warnings ++ warned_in rs
  unfolding record_all record_result
  record_all-warnings report [] = sym (append-nil report.warnings)
  record_all-warnings report (r ∷ rs) = elim (Option-cases r.warning) [
    | inl quiet ↦ ground (arith, quiet, record_all-warnings (record_result report r) rs)
    | inr (w, warned) ↦ ground (
      arith,
      warned,
      record_all-warnings (record_result report r) rs,
      append_assoc report.warnings (w ∷ []) (warned_in rs),
    )
  ]

  -- The report of a pass that starts empty counts the results, the eligible ones and the changes, and
  -- has the warnings in their order; it needs attention exactly if there is a warning, or if fewer
  -- items changed than were eligible. There are at most as many results as a usize counts.
  pub record_all-apply :
      (rs : List (OperatorActionResult Item))
      → length rs ≤ usize_max
      → (record_all apply_report rs ≡ record {
        inspected = length rs;
        eligible = eligible_in rs;
        changed = changed_in rs;
        dry_run = false;
        warnings = warned_in rs;
      })
        × (needs_attention (record_all apply_report rs)
            ≡ (has_any (warned_in rs) || ltb (changed_in rs) (eligible_in rs)))
  unfolding apply_report needs_attention
  record_all-apply rs b = ground (
    arith,
    record_all-counts apply_report rs (omega arith) (omega arith) (omega arith),
    record_all-warnings apply_report rs,
  )
