-- ===== src/BillingRisk/Webhooks.antt =====
-- The answers to webhooks against what was stored of them.
use world_infra.Prelude.{◌≡◌, refl, Bool, true, false, not, ◌&&◌, ◌||◌}
use world_infra.BillingRisk.{
  classify_webhook_persistence, should_ack_provider, should_retry_provider,
}

-- A webhook is acknowledged exactly when it is a duplicate or was stored and applied, and in every
-- other case, and only then, the provider is asked to send it again.
classify_webhook_persistence_lem :
    (duplicate persisted applied : Bool)
    → (should_ack_provider (classify_webhook_persistence duplicate persisted applied)
        ≡ (duplicate || (persisted && applied)))
      × (should_retry_provider (classify_webhook_persistence duplicate persisted applied)
          ≡ not (should_ack_provider (classify_webhook_persistence duplicate persisted applied)))
unfolding classify_webhook_persistence should_ack_provider should_retry_provider
classify_webhook_persistence_lem true persisted applied = (refl, refl)
classify_webhook_persistence_lem false true true = (refl, refl)
classify_webhook_persistence_lem false true false = (refl, refl)
classify_webhook_persistence_lem false false applied = (refl, refl)
