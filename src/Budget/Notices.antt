-- ===== src/Budget/Notices.antt =====
-- What `budgetMonitorTick` of worker/src/jobs/budget-monitor.ts writes for its readers: rows of alerts, rows of
-- webhook deliveries, and e-mails. Percentages are rounded from exact fractions where the source computes in
-- doubles.
use final_aldaro.Common.{
  ℕ, ◌*◌, Bool, true, false, not, none, some, List, [], ◌∷◌, ◌==◌, ◌&&◌, if◌then◌else◌, leb, any,
  find_many,
}
use final_aldaro.Hooks.Delivery.{WebhookEndpoint, WebhookDelivery, Switchboard, pending}
use final_aldaro.Spot.Price.{round_div}
use final_aldaro.Budget.Rows.{Account, BudgetAlert, Notice, Tick}

-- `Math.round((mtdSpendCents / limitCents) * 100)`
unfoldable pub percent : (spend limit : ℕ) → ℕ
percent spend limit = round_div (100 * spend) limit

-- `thresholdPct: pct >= 100 ? 100 : 90`
abbrev pub threshold : (spend limit : ℕ) → ℕ
threshold spend limit = if leb 100 (percent spend limit) then 100 else 90

abbrev pub note_alert : ℕ → Account → Account
note_alert now a = record a { last_budget_alert_at = some now }

abbrev pub stop_alert : (user spend limit count : ℕ) → BudgetAlert
stop_alert user spend limit count = record {
  user_id = user;
  mtd_spend_cents = spend;
  limit_cents = limit;
  threshold_pct = 100;
  terminates = true;
  workspaces_terminated = count;
}

abbrev pub warn_alert : (user spend limit : ℕ) → BudgetAlert
warn_alert user spend limit = record {
  user_id = user;
  mtd_spend_cents = spend;
  limit_cents = limit;
  threshold_pct = threshold spend limit;
  terminates = false;
  workspaces_terminated = 0;
}

-- A new row of `webhook_deliveries`, whose attempts start at the column's default, 1.
abbrev pub new_delivery : Tick → WebhookEndpoint → WebhookDelivery
new_delivery t e = record {
  id = t.delivery_id_for e.id;
  endpoint_id = e.id;
  status = pending;
  attempt_count = 1;
  response_status = none;
  delivered_at = none;
  next_retry_at = none;
  created_at = t.now;
}

unfoldable pub enqueue_deliveries : Tick → List WebhookEndpoint → Switchboard → Switchboard
enqueue_deliveries t [] s = s
enqueue_deliveries t (e ∷ es) s =
    enqueue_deliveries t es (record s { deliveries = new_delivery t e ∷ s.deliveries })

unfoldable pub notify_webhooks : Tick → ℕ → Switchboard → Switchboard
notify_webhooks t user s =
    enqueue_deliveries t
      (find_many (λ e. e.user_id == user && (e.enabled && e.wants_budget_warnings)) s.endpoints) s

abbrev pub same_flag : Bool → Bool → Bool
same_flag true b = b
same_flag false b = not b

abbrev pub same_notice : Notice → Notice → Bool
same_notice a b =
    same_flag a.of_org b.of_org
    && (a.account_id == b.account_id && (a.month == b.month && a.threshold_pct == b.threshold_pct))

-- An e-mail whose dedupe key is there is not queued again.
abbrev pub add_notice : Notice → List Notice → List Notice
add_notice n ns = if any (same_notice n) ns then ns else n ∷ ns
