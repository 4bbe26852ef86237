-- ===== src/Webhooks.antt =====
-- packages/webhooks/src: verification.ts, durable/webhookEventLog.ts and durable/endpointSecretStore.ts. The check
-- of a signature is Stripe's, a parameter: what it makes of a body, a header and a secret, or nothing when
-- it throws. Texts and payloads that are only handed on are numbers; times are milliseconds.
use byok_business_autopilot.Base.{
  ℕ, zero, suc, ◌≡◌, Bool, true, false, ◌&&◌, Option, none, some, List, [], ◌∷◌, ◌++◌, Result, ok,
  err, or_throw, Eq, ◌==◌, nat_eq, if◌then◌else◌, ltb, ℕ_discrete,
}
use byok_business_autopilot.Base.Dict.{Dict, lookup, insert, contains}
pub mod Recent

pub data WebhookProvider : Type 0 where
  stripe : WebhookProvider

pub record VerifiedWebhookEvent : Type 0 where
  pub provider : WebhookProvider
  pub event_type : ℕ
  pub payload : ℕ
  pub received_at : ℕ

pub data WebhookError : Type 0 where
  webhook_signature_error : WebhookError

-- The type and the object of a Stripe event.
pub record StripeEvent : Type 0 where
  pub event_type : ℕ
  pub object : ℕ

module _ (construct_event : ℕ → ℕ → ℕ → Option StripeEvent) where
  abbrev pub verified_event : ℕ → StripeEvent → VerifiedWebhookEvent
  verified_event now event = record {
    provider = stripe;
    event_type = event.event_type;
    payload = event.object;
    received_at = now;
  }

  abbrev pub constructed : ℕ → Option StripeEvent → Result WebhookError VerifiedWebhookEvent
  constructed now none = err webhook_signature_error
  constructed now (some event) = ok (verified_event now event)

  -- `signatureHeader` is none when it is missing or empty.
  unfoldable pub verify_webhook_signature :
      WebhookProvider
      → (raw_body : ℕ) → (signature_header : Option ℕ) → (secret now : ℕ)
      → Result WebhookError VerifiedWebhookEvent
  verify_webhook_signature stripe raw_body none secret now = err webhook_signature_error
  verify_webhook_signature stripe raw_body (some header) secret now =
      constructed now (construct_event raw_body header secret)

abbrev pub EventLog : Type 0
EventLog = Dict ℕ (List VerifiedWebhookEvent)

-- `?? []`
abbrev pub events_of : Option (List VerifiedWebhookEvent) → List VerifiedWebhookEvent
events_of none = []
events_of (some events) = events

-- `unshift`
unfoldable pub record_event : ℕ → VerifiedWebhookEvent → EventLog → EventLog
record_event tenant_id event log = insert tenant_id (event ∷ events_of (lookup tenant_id log)) log

abbrev pub take_events : ℕ → List VerifiedWebhookEvent → List VerifiedWebhookEvent
take_events zero events = []
take_events (suc n) [] = []
take_events (suc n) (event ∷ events) = event ∷ take_events n events

abbrev pub default_limit : ℕ
default_limit = 50

unfoldable pub recent_for_tenant : ℕ → ℕ → EventLog → List VerifiedWebhookEvent
recent_for_tenant tenant_id limit log = take_events limit (events_of (lookup tenant_id log))

-- PostgresWebhookEventLog: the rows of `webhook_events`, the last inserted first.
pub record WebhookEventRow : Type 0 where
  pub tenant_id : ℕ
  pub event : VerifiedWebhookEvent

abbrev pub insert_event_row : ℕ → VerifiedWebhookEvent → List WebhookEventRow → List WebhookEventRow
insert_event_row tenant_id event rows = (record { tenant_id = tenant_id; event = event }) ∷ rows

unfoldable pub rows_of_tenant : ℕ → List WebhookEventRow → List VerifiedWebhookEvent
rows_of_tenant tenant_id [] = []
rows_of_tenant tenant_id (row ∷ rows) =
    let rest = rows_of_tenant tenant_id rows in
    if row.tenant_id == tenant_id then row.event ∷ rest else rest

-- An event goes before the ones received earlier, or at the same time.
unfoldable pub place : VerifiedWebhookEvent → List VerifiedWebhookEvent → List VerifiedWebhookEvent
place event [] = event ∷ []
place event (other ∷ events) =
    let rest = place event events in
    if ltb event.received_at other.received_at then other ∷ rest else event ∷ other ∷ events

-- ORDER BY received_at DESC
unfoldable pub order_by_received : List VerifiedWebhookEvent → List VerifiedWebhookEvent
order_by_received [] = []
order_by_received (event ∷ events) = place event (order_by_received events)

unfoldable pub select_recent : ℕ → ℕ → List WebhookEventRow → List VerifiedWebhookEvent
select_recent tenant_id limit rows =
    take_events limit (order_by_received (rows_of_tenant tenant_id rows))

-- The signing secrets. A tenant's id is a UUID, so `${tenantId}|${provider}` keeps both parts.
abbrev pub EndpointSecrets : Type 0
EndpointSecrets = Dict ℕ ℕ

-- The one provider that there is leaves the tenant as the key.
unfoldable pub set_secret : ℕ → WebhookProvider → ℕ → EndpointSecrets → EndpointSecrets
set_secret tenant_id stripe secret secrets = insert tenant_id secret secrets

unfoldable pub get_secret : ℕ → WebhookProvider → EndpointSecrets → Option ℕ
get_secret tenant_id stripe secrets = lookup tenant_id secrets

unfoldable pub is_configured : ℕ → WebhookProvider → EndpointSecrets → Bool
is_configured tenant_id stripe secrets = contains tenant_id secrets
