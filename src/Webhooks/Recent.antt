-- ===== src/Webhooks/Recent.antt =====
-- packages/webhooks/src/durable/webhookEventLog.ts: what the two logs show of a tenant.
use byok_business_autopilot.Base.{
  ℕ, ◌≤◌, ◌≡◌, refl, sym, ap, ◌∙◌, Bool, true, false, List, [], ◌∷◌, ◌==◌, nat_eq, if◌then◌else◌,
  arith,
}
use byok_business_autopilot.Base.Dict.{lookup, lookup-insert}
use byok_business_autopilot.Webhooks.{
  VerifiedWebhookEvent, EventLog, events_of, record_event, take_events, recent_for_tenant,
  WebhookEventRow, rows_of_tenant, place, order_by_received, select_recent,
}

-- The log in memory after the rows were recorded, the last one last.
unfoldable pub log_of : List WebhookEventRow → EventLog
log_of [] = []
log_of (row ∷ rows) = record_event row.tenant_id row.event (log_of rows)

-- Each event was received no earlier than the ones recorded before it.
abbrev pub AtMost : ℕ → List WebhookEventRow → Type 0
AtMost t [] = Unit
AtMost t (row ∷ rows) = (row.event.received_at ≤ t) × AtMost t rows

abbrev pub InOrder : List WebhookEventRow → Type 0
InOrder [] = Unit
InOrder (row ∷ rows) = AtMost row.event.received_at rows × InOrder rows

events-log_of :
    (t : ℕ) (rows : List WebhookEventRow)
    → events_of (lookup t (log_of rows)) ≡ rows_of_tenant t rows
unfolding log_of rows_of_tenant record_event lookup
events-log_of t [] = refl
events-log_of t (row ∷ rows) = ground (
  arith,
  events-log_of t rows,
  lookup-insert row.tenant_id t (row.event ∷ events_of (lookup row.tenant_id (log_of rows)))
      (log_of rows),
)

abbrev NoneLater : ℕ → List VerifiedWebhookEvent → Type 0
NoneLater t [] = Unit
NoneLater t (event ∷ events) = (event.received_at ≤ t) × NoneLater t events

place-first :
    (event : VerifiedWebhookEvent) (events : List VerifiedWebhookEvent)
    → NoneLater event.received_at events
    → place event events ≡ event ∷ events
unfolding place
place-first event [] h = refl
place-first event (other ∷ events) h = ground (arith, h)

rows_of_tenant-NoneLater :
    (t at : ℕ) (rows : List WebhookEventRow) → AtMost at rows → NoneLater at (rows_of_tenant t rows)
unfolding rows_of_tenant
rows_of_tenant-NoneLater t at [] h = tt
rows_of_tenant-NoneLater t at (row ∷ rows) h =
    either (row.tenant_id == t) (rows_of_tenant-NoneLater t at rows h.1)
  where
    either :
        (b : Bool)
        → NoneLater at (rows_of_tenant t rows)
        → NoneLater at (if b then row.event ∷ rows_of_tenant t rows else rows_of_tenant t rows)
    either true rest = (h.0, rest)
    either false rest = rest

order-rows_of_tenant :
    (t : ℕ) (rows : List WebhookEventRow)
    → InOrder rows
    → order_by_received (rows_of_tenant t rows) ≡ rows_of_tenant t rows
unfolding rows_of_tenant order_by_received
order-rows_of_tenant t [] h = refl
order-rows_of_tenant t (row ∷ rows) h =
    either (row.tenant_id == t) (order-rows_of_tenant t rows h.1)
  where
    either :
        (b : Bool)
        → order_by_received (rows_of_tenant t rows) ≡ rows_of_tenant t rows
        → order_by_received (if b then row.event ∷ rows_of_tenant t rows else rows_of_tenant t rows)
          ≡ (if b then row.event ∷ rows_of_tenant t rows else rows_of_tenant t rows)
    either true rest =
        ap (place row.event) rest
        ∙ place-first row.event (rows_of_tenant t rows)
            (rows_of_tenant-NoneLater t row.event.received_at rows h.0)
    either false rest = rest

-- When events are recorded in the order they were received, for any tenants, the log in memory and the
-- Postgres log show a tenant the same events, its own and the newest first, up to the limit.
pub recent_for_tenant-Agrees :
    (t limit : ℕ) (rows : List WebhookEventRow)
    → InOrder rows
    → (recent_for_tenant t limit (log_of rows) ≡ select_recent t limit rows)
      × (select_recent t limit rows ≡ take_events limit (rows_of_tenant t rows))
unfolding recent_for_tenant select_recent
recent_for_tenant-Agrees t limit rows h =
    let sorted = order-rows_of_tenant t rows h in
    (ap (take_events limit) (events-log_of t rows ∙ sym sorted), ap (take_events limit) sorted)
