-- ===== src/Hooks/Tests.antt =====
-- Webhooks at concrete deliveries.
use final_aldaro.Common.{
  ℕ, ◌≡◌, ◌≢◌, refl, true, false, none, some, [], ◌∷◌, All, arith, ◌==◌, if◌then◌else◌, Bool-cases,
  inl, inr,
}
use final_aldaro.Hooks.Address.{
  v4, v6, is_blocked, is_blocked_destination, starts_with, is_loopback,
}
use final_aldaro.Hooks.Delivery.{
  WebhookEndpoint, WebhookDelivery, pending, Request, Switchboard, Network, answered,
  process_webhook_deliveries, deliver_each, due_deliveries, deliver_one, deliver_to, take_answer,
}
use final_aldaro.Hooks.Public.{IsAddress, IsPublic, process_webhook_deliveries-IsPublic}

-- 172.31.255.1, and fd00::1.
blocked_addresses : is_blocked_destination (v4 93 184 216 34 ∷ v4 172 31 255 1 ∷ []) ≡ true
unfolding is_blocked_destination is_blocked
blocked_addresses = refl

blocked_text : is_blocked (v6 (102 ∷ 100 ∷ 48 ∷ 48 ∷ 58 ∷ 58 ∷ 49 ∷ [])) ≡ true
unfolding is_blocked starts_with is_loopback
blocked_text = refl

abbrev endpoint : WebhookEndpoint
endpoint = record {
  id = 1;
  user_id = 5;
  url = 11;
  wants_budget_warnings = true;
  enabled = true;
  failure_count = 0;
  last_delivered_at = none;
  last_failed_at = none;
}

abbrev delivery : WebhookDelivery
delivery = record {
  id = 3;
  endpoint_id = 1;
  status = pending;
  attempt_count = 1;
  response_status = none;
  delivered_at = none;
  next_retry_at = none;
  created_at = 0;
}

-- The host 21 is public, and every other one is 10.0.0.7.
abbrev network : Network
network = record {
  host_of = λ url. some (if url == 11 then 21 else 22);
  resolve = λ host. if host == 21 then v4 93 184 216 34 ∷ [] else v4 10 0 0 7 ∷ [];
  decrypts = λ e. true;
  redirects = λ d. 22 ∷ [];
  fetch = λ d. answered 200;
}

abbrev switchboard : Switchboard
switchboard = record {
  endpoints = endpoint ∷ record endpoint { id = 2; url = 12 } ∷ [];
  deliveries = delivery ∷ record delivery { id = 4; endpoint_id = 2 } ∷ [];
  requests = [];
}

-- The endpoint redirects to 10.0.0.7.
redirected_inside :
    (process_webhook_deliveries network 10_000 switchboard).requests
    ≡ record { delivery_id = 3; host = 22; redirected = true }
      ∷ record { delivery_id = 3; host = 21; redirected = false }
      ∷ []
unfolding process_webhook_deliveries deliver_each due_deliveries deliver_one deliver_to take_answer
    is_blocked_destination is_blocked
redirected_inside = refl

network_well : (host : ℕ) → All IsAddress (network.resolve host)
network_well host = elim (Bool-cases (host == 21)) [
  | inl hit ↦ rw hit ((omega arith, omega arith, omega arith, omega arith), tt)
  | inr miss ↦ rw miss ((omega arith, omega arith, omega arith, omega arith), tt)
]

process_webhook_deliveries-IsPublic_example :
    All
      (λ (q : Request).
        q.redirected ≡ false
        → All IsPublic (network.resolve q.host) × (network.resolve q.host ≢ []))
      (process_webhook_deliveries network 10_000 switchboard).requests
process_webhook_deliveries-IsPublic_example =
    process_webhook_deliveries-IsPublic network 10_000 switchboard network_well refl
