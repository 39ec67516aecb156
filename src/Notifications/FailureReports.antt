-- ===== src/Notifications/FailureReports.antt =====
-- Failures of a provider in crates/notification-core/src/lib.rs, with the report of
-- crates/delivery-core/src/lib.rs.
use world_infra.Prelude.{
  ℕ, ◌≤◌, ◌≡◌, refl, sym, ap, ◌∙◌, Bool, true, false, not, Option, none, some, all, [], ◌∷◌, ltb,
  ok, bind-ok, ok_injective, IfOk, IfOk-bind, IfOk-guard, IfOk-of, IfOk-ok, arith,
}
use world_infra.Text.{Text, codes, byte_length, is_control, trim, is_empty}
use world_infra.Text.Scan.{find}
use world_infra.Delivery.{DeliveryRunReport, record_outcome}
use world_infra.Notifications.{empty, too_long}
use world_infra.Notifications.Channels.{
  ProviderFailureCode, is_code_char, refuse_found, validated_field, new_failure_code,
}
use world_infra.Notifications.Outcomes.{
  ProviderFailureClass, class_retryable, class_permanent, class_ambiguous, ProviderFailure,
  with_code, as_provider_outcome, as_delivery_outcome,
}

-- A code that shows nothing but a label: one to 128 lowercase letters, digits and underscores.
abbrev pub IsLabel : Text → Type 0
IsLabel code = (is_empty code ≡ false) × (byte_length code ≤ 128) × (all is_code_char code ≡ true)

find-none : (p : ℕ → Bool) (s : Text) → find (λ ch. not (p ch)) s ≡ none → all p s ≡ true
find-none p [] h = refl
find-none p (c ∷ s) h = ground (arith, find-none p s)

refuse_found-ok :
    (field : Text) (found : Option ℕ) → refuse_found field found ≡ ok tt → found ≡ none
refuse_found-ok field none h = refl
refuse_found-ok field (some ch) h = absurd cc

abbrev IsField : ℕ → Text → Type 0
IsField max value = (is_empty value ≡ false) × (byte_length value ≤ max)

validated_field-IsField :
    (field : Text) (max : ℕ) (value : Text) → IfOk (IsField max) (validated_field field max value)
validated_field-IsField field max value =
    IfOk-bind (IsField max) (refuse_found field (find is_control value)) _ (λ _ e.
      IfOk-guard (IsField max) (is_empty (trim value)) (empty field) _ (λ full.
        IfOk-guard (IsField max) (ltb max (byte_length (trim value)))
          (too_long field (byte_length (trim value)) max) _
          (λ fits. IfOk-of (IsField max) _ (trim value) refl (full, ground (arith, fits)))))

new_failure_code-IsLabel :
    (value : Text) → IfOk (λ code. IsLabel code.value) (new_failure_code value)
unfolding new_failure_code
new_failure_code-IsLabel value =
    IfOk-bind _ (validated_field (codes "provider_failure_code") 128 value) _ (λ kept e.
      let field =
        IfOk-ok (IsField 128) _ kept
          (validated_field-IsField (codes "provider_failure_code") 128 value) e in
      IfOk-bind _
        (refuse_found (codes "provider_failure_code") (find (λ ch. not (is_code_char ch)) kept)) _
        (λ _ f.
          IfOk-of _ _ (record { value = kept }) refl
            (field.0, field.1, find-none is_code_char kept (refuse_found-ok _ _ f))))

-- A report with the failure in it.
abbrev pub failed : DeliveryRunReport → ProviderFailure → DeliveryRunReport
failed report failure = record_outcome report (as_delivery_outcome (as_provider_outcome failure))

failed-delivered :
    (report : DeliveryRunReport) (class : ProviderFailureClass) (retry_after : Option ℕ)
    → (code : Option ProviderFailureCode)
    → (failed report (record { class = class; retry_after = retry_after; code = code })).delivered
      ≡ report.delivered
unfolding as_provider_outcome as_delivery_outcome record_outcome
failed-delivered report class_retryable retry_after code = refl
failed-delivered report class_permanent retry_after code = refl
failed-delivered report class_ambiguous retry_after code = refl

-- A failure that is given a code is recorded as without it, and never as delivered, and its code is one to 128
-- lowercase letters, digits and underscores.
with_code-IsLabel :
    (report : DeliveryRunReport) (failure coded : ProviderFailure) (code : Text)
    → with_code failure code ≡ ok coded
    → (failed report coded ≡ failed report failure)
      × ((failed report coded).delivered ≡ report.delivered)
      × (label : ProviderFailureCode) × (coded.code ≡ some label)
      × IsLabel label.value
unfolding with_code as_provider_outcome as_delivery_outcome record_outcome
with_code-IsLabel report failure coded code h =
    let (label, e, h1) = bind-ok (new_failure_code code) _ coded h in
    let same = ok_injective (record failure { code = some label }) coded _ refl h1 in
    (
      ap (failed report) (sym same),
      ap (λ f. (failed report f).delivered) (sym same)
          ∙ failed-delivered report failure.class failure.retry_after (some label),
      label,
      ap (λ f. f.code) (sym same),
      IfOk-ok (λ code. IsLabel code.value) _ label (new_failure_code-IsLabel code) e,
    )
