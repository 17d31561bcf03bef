-- ===== src/Hooks/Public.antt =====
-- Where worker/src/jobs/webhook-delivery.ts sends requests: its checks on the parts of an address against
-- the private ranges as intervals of 32-bit numbers.
use final_aldaro.Common.{
  ℕ, ◌+◌, ◌*◌, ◌<◌, ◌≡◌, ◌≢◌, sym, subst, ◌⊎◌, inl, inr, false, Option, none, some, List, [], ◌∷◌,
  ◌&&◌, leb, ltb, any-none, arith, All, All-map, All-append, All-both, map, Bool-cases,
  Option-cases,
}
use final_aldaro.Hooks.Address.{
  Address, v4, v6, starts_with, unique_local_c, unique_local_d, link_local, is_loopback, is_blocked,
  is_blocked_destination,
}
use final_aldaro.Hooks.Delivery.{
  WebhookEndpoint, WebhookDelivery, Request, Switchboard, Network, FetchResult, answered, thrown,
  redirected_request, log_requests, fail_one, take_answer, deliver_to, deliver_one, endpoint_of,
  deliver_each, due_deliveries, process_webhook_deliveries, max_delivery_attempts,
}

-- The four numbers of an IPv4 address are bytes.
abbrev pub IsAddress : Address → Type 0
IsAddress (v4 a b c d) = (a < 256) × (b < 256) × (c < 256) × (d < 256)
IsAddress (v6 text) = Unit

abbrev pub Outside : ℕ → ℕ → ℕ → Type 0
Outside low high n = (n < low) ⊎ (high < n)

abbrev pub number : ℕ → ℕ → ℕ → ℕ → ℕ
number a b c d = a * 16_777_216 + b * 65_536 + c * 256 + d

-- Outside of 10.0.0.0/8, 172.16.0.0/12, 192.168.0.0/16 and 169.254.0.0/16, and not the address 127.0.0.1;
-- or neither loopback nor of the local prefixes.
abbrev pub IsPublic : Address → Type 0
IsPublic (v4 a b c d) =
    Outside 167_772_160 184_549_375 (number a b c d)
    × Outside 2_886_729_728 2_887_778_303 (number a b c d)
    × Outside 3_232_235_520 3_232_301_055 (number a b c d)
    × Outside 2_851_995_648 2_852_061_183 (number a b c d)
    × (number a b c d ≢ 2_130_706_433)
IsPublic (v6 text) =
    (is_loopback text ≡ false)
    × (starts_with text unique_local_c ≡ false)
    × (starts_with text unique_local_d ≡ false)
    × (starts_with text link_local ≡ false)

is_blocked-IsPublic : (x : Address) → IsAddress x → is_blocked x ≡ false → IsPublic x
unfolding is_blocked
is_blocked-IsPublic (v4 a b c d) (ha, hb, hc, hd) e = (
  ground (arith, ha, hb, hc, hd, e),
  ground (arith, ha, hb, hc, hd, e),
  ground (arith, ha, hb, hc, hd, e),
  ground (arith, ha, hb, hc, hd, e),
  ground (arith, ha, hb, hc, hd, e),
)
is_blocked-IsPublic (v6 text) h e = ground arith

module _ (net : Network) (well : (host : ℕ) → All IsAddress (net.resolve host)) where
  -- Every address of the host of a request of an endpoint is public, and there is one.
  abbrev SafeRequest : Request → Type 0
  SafeRequest q =
      q.redirected ≡ false → All IsPublic (net.resolve q.host) × (net.resolve q.host ≢ [])

  hops-Safe :
      (d : WebhookDelivery) (hops : List ℕ) → All SafeRequest (map (redirected_request d) hops)
  hops-Safe d [] = tt
  hops-Safe d (hop ∷ hops) = (λ own. cc, hops-Safe d hops)

  abbrev Safe : Switchboard → Type 0
  Safe s = All SafeRequest s.requests

  is_blocked_destination-IsPublic :
      (addresses : List Address)
      → All IsAddress addresses
      → is_blocked_destination addresses ≡ false
      → All IsPublic addresses × (addresses ≢ [])
  unfolding is_blocked_destination
  is_blocked_destination-IsPublic [] h e = absurd (ground arith)
  is_blocked_destination-IsPublic (x ∷ xs) h e = (
    All-map (λ y. IsAddress y × (is_blocked y ≡ false)) IsPublic (x ∷ xs)
        (λ y both. is_blocked-IsPublic y both.0 both.1)
        (All-both IsAddress (λ y. is_blocked y ≡ false) (x ∷ xs) h
          (any-none is_blocked (x ∷ xs) e)),
    λ empty. cc,
  )

  fail_one-Safe :
      (now : ℕ) (status : Option ℕ) (d : WebhookDelivery) (e : WebhookEndpoint) (s : Switchboard)
      → Safe s
      → Safe (fail_one now status d e s)
  unfolding fail_one
  fail_one-Safe now status d e s h =
      elim (Bool-cases (leb max_delivery_attempts (d.attempt_count + 1))) [
        | inl last ↦ rw (last, fail_one) h
        | inr more ↦ rw (more, fail_one) h
      ]

  take_answer-Safe :
      (now : ℕ) (r : FetchResult) (d : WebhookDelivery) (e : WebhookEndpoint) (s : Switchboard)
      → Safe s
      → Safe (take_answer now r d e s)
  unfolding take_answer
  take_answer-Safe now thrown d e s h = fail_one-Safe now none d e s h
  take_answer-Safe now (answered status) d e s h =
      elim (Bool-cases (leb 200 status && ltb status 300)) [
        | inl good ↦ rw (good, take_answer) h
        | inr bad ↦ rw (bad, take_answer) (fail_one-Safe now (some status) d e s h)
      ]

  deliver_to-Safe :
      (now host : ℕ) (d : WebhookDelivery) (e : WebhookEndpoint) (s : Switchboard)
      → Safe s
      → Safe (deliver_to net now host d e s)
  unfolding deliver_to
  deliver_to-Safe now host d e s h = elim (Bool-cases (is_blocked_destination (net.resolve host))) [
    | inl blocked ↦ rw (blocked, deliver_to) h
    | inr free ↦ elim (Bool-cases (net.decrypts e.id)) [
      | inr garbled ↦ rw (free, garbled, deliver_to) (fail_one-Safe now none d e s h)
      | inl clear ↦
          rw (free, clear, deliver_to)
            (take_answer-Safe now (net.fetch d.id) d e (log_requests d host (net.redirects d.id) s)
              (All-append SafeRequest (map (redirected_request d) (net.redirects d.id)) _
                (hops-Safe d (net.redirects d.id))
                ((λ own. is_blocked_destination-IsPublic (net.resolve host) (well host) free), h)))
    ]
  ]

  deliver_one-Safe :
      (now : ℕ) (d : WebhookDelivery) (endpoint : Option WebhookEndpoint) (s : Switchboard)
      → Safe s
      → Safe (deliver_one net now d endpoint s)
  unfolding deliver_one
  deliver_one-Safe now d none s h = h
  deliver_one-Safe now d (some e) s h = elim (Bool-cases e.enabled) [
    | inr off ↦ rw (off, deliver_one) h
    | inl on ↦ elim (Option-cases (net.host_of e.url)) [
      | inl bad ↦ rw (on, bad, deliver_one) h
      | inr (host, known) ↦ rw (on, known, deliver_one) (deliver_to-Safe now host d e s h)
    ]
  ]

  deliver_each-Safe :
      (now : ℕ) (before : Switchboard) (ds : List WebhookDelivery) (s : Switchboard)
      → Safe s
      → Safe (deliver_each net now before ds s)
  unfolding deliver_each
  deliver_each-Safe now before [] s h = h
  deliver_each-Safe now before (d ∷ ds) s h =
      deliver_each-Safe now before ds (deliver_one net now d (endpoint_of before d) s)
        (deliver_one-Safe now d (endpoint_of before d) s h)

-- Where DNS gives IPv4 addresses of four bytes, every request that a turn makes, other than those
-- that an answer redirects `fetch` to, goes to a host that resolved, in the check before it, to
-- one address at least and to none in 10.0.0.0/8, 172.16.0.0/12, 192.168.0.0/16 or 169.254.0.0/16,
-- nor to 127.0.0.1, nor to an IPv6 address that is the loopback or begins with fc, fd or fe80.
pub process_webhook_deliveries-IsPublic :
    (net : Network) (now : ℕ) (s : Switchboard)
    → ((host : ℕ) → All IsAddress (net.resolve host))
    → s.requests ≡ []
    → All
        (λ (q : Request).
          q.redirected ≡ false → All IsPublic (net.resolve q.host) × (net.resolve q.host ≢ []))
        (process_webhook_deliveries net now s).requests
unfolding process_webhook_deliveries
process_webhook_deliveries-IsPublic net now s well none_yet =
    deliver_each-Safe net well now s (due_deliveries now s) s
      (subst (All (SafeRequest net well)) (sym none_yet) tt)
