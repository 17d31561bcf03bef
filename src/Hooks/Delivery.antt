-- ===== src/Hooks/Delivery.antt =====
-- `deliverOne` and `processWebhookDeliveries` of worker/src/jobs/webhook-delivery.ts over the tables
-- `webhook_deliveries` and `webhook_endpoints` (packages/db/prisma/schema.prisma). URLs, hosts and payloads
-- are opaque numbers; the signature and the texts of responses are left out.
use final_aldaro.Common.{
  ℕ, suc, ◌+◌, ◌-◌, Bool, true, false, not, Option, none, some, List, [], ◌∷◌, ◌++◌, map, ◌==◌,
  ◌&&◌, if◌then◌else◌, ltb, leb, take, get_or, find_first, find_many, order_by, update_many,
}
use final_aldaro.Billing.Metering.{is_ready}
use final_aldaro.Hooks.Address.{Address, is_blocked_destination}

pub record WebhookEndpoint : Type 0 where
  pub id : ℕ
  pub user_id : ℕ
  pub url : ℕ
  -- `events` contains `budget.warning`
  pub wants_budget_warnings : Bool
  pub enabled : Bool
  pub failure_count : ℕ
  pub last_delivered_at : Option ℕ
  pub last_failed_at : Option ℕ

pub data DeliveryStatus : Type 0 where
  pending delivered failed : DeliveryStatus

abbrev pub is_waiting : DeliveryStatus → Bool
is_waiting pending = true
is_waiting delivered = false
is_waiting failed = false

pub record WebhookDelivery : Type 0 where
  pub id : ℕ
  pub endpoint_id : ℕ
  pub status : DeliveryStatus
  pub attempt_count : ℕ
  pub response_status : Option ℕ
  pub delivered_at : Option ℕ
  pub next_retry_at : Option ℕ
  pub created_at : ℕ

-- A request that was made: of the endpoint itself, or of where an answer redirected `fetch` to.
pub record Request : Type 0 where
  pub delivery_id : ℕ
  pub host : ℕ
  pub redirected : Bool

pub record Switchboard : Type 0 where
  pub endpoints : List WebhookEndpoint
  pub deliveries : List WebhookDelivery
  pub requests : List Request

-- What `fetch` comes to.
pub data FetchResult : Type 0 where
  answered : (status : ℕ) → FetchResult
  thrown : FetchResult

-- The host of a URL, if it parses, the addresses of a host, whether the secret decrypts, the hosts that
-- `fetch` is redirected to one after the other, and the answer that it ends with.
pub record Network : Type 0 where
  pub host_of : ℕ → Option ℕ
  pub resolve : ℕ → List Address
  pub decrypts : ℕ → Bool
  pub redirects : ℕ → List ℕ
  pub fetch : ℕ → FetchResult

abbrev pub max_delivery_attempts : ℕ
max_delivery_attempts = 6

abbrev pub settle_ms : ℕ
settle_ms = 5_000

abbrev pub delivery_backoff_ms : List ℕ
delivery_backoff_ms = 30_000 ∷ 120_000 ∷ 300_000 ∷ 900_000 ∷ 3_600_000 ∷ []

-- `nextBackoff`
unfoldable pub delivery_backoff : ℕ → ℕ
delivery_backoff attempts = get_or delivery_backoff_ms (attempts - 1) 3_600_000

abbrev pub delivery_with_id : ℕ → WebhookDelivery → Bool
delivery_with_id id d = d.id == id

abbrev pub endpoint_with_id : ℕ → WebhookEndpoint → Bool
endpoint_with_id id e = e.id == id

abbrev pub on_delivery :
    (WebhookDelivery → WebhookDelivery) → WebhookDelivery → Switchboard → Switchboard
on_delivery change d s = record s {
  deliveries = update_many (delivery_with_id d.id) change s.deliveries;
}

abbrev pub on_endpoint :
    (WebhookEndpoint → WebhookEndpoint) → WebhookEndpoint → Switchboard → Switchboard
on_endpoint change e s = record s {
  endpoints = update_many (endpoint_with_id e.id) change s.endpoints;
}

-- A delivery that is not tried again.
abbrev pub reject : WebhookDelivery → WebhookDelivery
reject d = record d { status = failed; next_retry_at = none }

abbrev pub fail_delivery : ℕ → ℕ → Option ℕ → WebhookDelivery → WebhookDelivery
fail_delivery now attempts status d =
    if leb max_delivery_attempts attempts
    then record d {
      status = failed;
      response_status = status;
      attempt_count = attempts;
      next_retry_at = none;
    }
    else record d {
      status = pending;
      response_status = status;
      attempt_count = attempts;
      next_retry_at = some (now + delivery_backoff attempts);
    }

-- The count of failures, and the end of the endpoint at ten.
abbrev pub count_failure : ℕ → WebhookEndpoint → WebhookEndpoint
count_failure now e = record e {
  failure_count = suc e.failure_count;
  last_failed_at = some now;
  enabled = if leb 10 (suc e.failure_count) then false else e.enabled;
}

-- The closure `fail`.
unfoldable pub fail_one :
    ℕ → Option ℕ → WebhookDelivery → WebhookEndpoint → Switchboard → Switchboard
fail_one now status d e s =
    let attempts = d.attempt_count + 1 in
    let noted = on_delivery (fail_delivery now attempts status) d s in
    if leb max_delivery_attempts attempts then on_endpoint (count_failure now) e noted else noted

abbrev pub deliver_row : ℕ → ℕ → ℕ → WebhookDelivery → WebhookDelivery
deliver_row now status attempts d = record d {
  status = delivered;
  response_status = some status;
  attempt_count = attempts;
  delivered_at = some now;
  next_retry_at = none;
}

abbrev pub praise : ℕ → WebhookEndpoint → WebhookEndpoint
praise now e = record e { last_delivered_at = some now; failure_count = 0 }

unfoldable pub take_answer :
    ℕ → FetchResult → WebhookDelivery → WebhookEndpoint → Switchboard → Switchboard
take_answer now thrown d e s = fail_one now none d e s
take_answer now (answered status) d e s =
    if leb 200 status && ltb status 300
    then on_endpoint (praise now) e (on_delivery (deliver_row now status (d.attempt_count + 1)) d s)
    else fail_one now (some status) d e s

abbrev pub first_request : WebhookDelivery → ℕ → Request
first_request d host = record { delivery_id = d.id; host = host; redirected = false }

-- Redirects are followed by default, and no host is checked on the way.
abbrev pub redirected_request : WebhookDelivery → ℕ → Request
redirected_request d host = record { delivery_id = d.id; host = host; redirected = true }

abbrev pub log_requests : WebhookDelivery → ℕ → List ℕ → Switchboard → Switchboard
log_requests d host hops s = record s {
  requests = map (redirected_request d) hops ++ first_request d host ∷ s.requests;
}

-- From a host on: the check of its addresses, the secret, the request.
unfoldable pub deliver_to :
    Network → (now host : ℕ) → WebhookDelivery → WebhookEndpoint → Switchboard → Switchboard
deliver_to net now host d e s =
    if is_blocked_destination (net.resolve host)
    then on_delivery reject d s
    else if not (net.decrypts e.id)
    then fail_one now none d e s
    else take_answer now (net.fetch d.id) d e (log_requests d host (net.redirects d.id) s)

-- `endpoint` is the row as it was read with the delivery.
unfoldable pub deliver_one :
    Network → ℕ → WebhookDelivery → Option WebhookEndpoint → Switchboard → Switchboard
deliver_one net now d none s = on_delivery reject d s
deliver_one net now d (some e) s =
    if not e.enabled then on_delivery reject d s else elim (net.host_of e.url) [
      | none ↦ on_delivery reject d s
      | some host ↦ deliver_to net now host d e s
    ]

abbrev pub is_deliverable : ℕ → WebhookDelivery → Bool
is_deliverable now d =
    is_waiting d.status && (ltb (d.created_at + settle_ms) now && is_ready now d.next_retry_at)

unfoldable pub due_deliveries : ℕ → Switchboard → List WebhookDelivery
due_deliveries now s =
    take 20 (order_by (λ d. d.created_at) (find_many (is_deliverable now) s.deliveries))

-- `include: { endpoint: true }`, of the tables at the start.
abbrev pub endpoint_of : Switchboard → WebhookDelivery → Option WebhookEndpoint
endpoint_of s d = find_first (endpoint_with_id d.endpoint_id) s.endpoints

unfoldable pub deliver_each :
    Network → ℕ → Switchboard → List WebhookDelivery → Switchboard → Switchboard
deliver_each net now before [] s = s
deliver_each net now before (d ∷ ds) s =
    deliver_each net now before ds (deliver_one net now d (endpoint_of before d) s)

unfoldable pub process_webhook_deliveries : Network → ℕ → Switchboard → Switchboard
process_webhook_deliveries net now s = deliver_each net now s (due_deliveries now s) s
