-- ===== src/Operator.antt =====
-- crates/operator-deadletter-core/src/lib.rs: dead letters, and the report of an operator's pass. A
-- `usize` has 64 bits.
pub mod Laws
use world_infra.Prelude.{
  ℕ, ◌+◌, ◌-◌, ◌^◌, Bool, true, false, not, ◌&&◌, ◌||◌, Option, none, some, List, [], ◌∷◌, ◌++◌,
  ltb, min, if◌then◌else◌,
}
use world_infra.Text.{Text}

abbrev pub usize_max : ℕ
usize_max = 2 ^ 64 - 1

pub data DeadLetterReason : Type 0 where
  exhausted_retries stale_lease ambiguous_after_side_effect missing_dependency : DeadLetterReason
  provider_rejected invariant_violation product_specific : DeadLetterReason

pub data OperatorAction : Type 0 where
  retry mark_complete mark_failed require_manual_reconciliation noop : OperatorAction

unfoldable pub requires_manual_reconciliation : OperatorAction → Bool
requires_manual_reconciliation require_manual_reconciliation = true
requires_manual_reconciliation _ = false

abbrev pub is_noop : OperatorAction → Bool
is_noop noop = true
is_noop _ = false

pub record DeadLetterItem {ℓ} (Item : Type ℓ) : Type ℓ where
  pub id : Item
  pub reason : DeadLetterReason
  pub attempts : ℕ
  pub detail : Option Text

pub record OperatorActionResult {ℓ} (Item : Type ℓ) : Type ℓ where
  pub id : Item
  pub action : OperatorAction
  pub changed : Bool
  pub warning : Option Text

pub record OperatorRunReport : Type 0 where
  pub inspected : ℕ
  pub eligible : ℕ
  pub changed : ℕ
  pub dry_run : Bool
  pub warnings : List Text

-- `OperatorRunReport::apply`, the default report.
unfoldable pub apply_report : OperatorRunReport
apply_report = record { inspected = 0; eligible = 0; changed = 0; dry_run = false; warnings = [] }

-- `OperatorRunReport::dry_run`
unfoldable pub dry_run_report : OperatorRunReport
unfolding apply_report
dry_run_report = record apply_report { dry_run = true }

-- `usize::saturating_add(1)`
abbrev pub increment : ℕ → ℕ
increment n = min (n + 1) usize_max

-- `OperatorRunReport::record`
unfoldable pub record_result {ℓ} :
    {Item : Type ℓ} → OperatorRunReport → OperatorActionResult Item → OperatorRunReport
record_result report result = record {
  inspected = increment report.inspected;
  eligible = if is_noop result.action then report.eligible else increment report.eligible;
  changed = if result.changed then increment report.changed else report.changed;
  dry_run = report.dry_run;
  warnings = elim result.warning [
    | none ↦ report.warnings
    | some warning ↦ report.warnings ++ warning ∷ []
  ];
}

abbrev pub has_any : List Text → Bool
has_any [] = false
has_any (_ ∷ _) = true

-- `OperatorRunReport::needs_attention`
unfoldable pub needs_attention : OperatorRunReport → Bool
needs_attention report =
    has_any report.warnings || (ltb 0 report.eligible && ltb report.changed report.eligible)
