-- ===== src/Gateway/Tests.antt =====
-- Runs of the gateway at concrete tables, and its theorems applied to them.
use final_aldaro.Common.{
  ℕ, zero, suc, ◌+◌, ◌≤◌, ◌<◌, ◌≡◌, refl, true, false, some, List, [], ◌∷◌, arith, ◌==◌, inl, inr,
  Bool-cases,
}
use final_aldaro.Gateway.Leases.{
  Gateway, Env, granted, threw, has, draw_port, persist_lease, allocate_new, allocate, release,
  port_range_start, port_range_end, lease_row, new_allocation, forget_lease, set_released,
  restore_lease,
}
use final_aldaro.Gateway.Consistent.{IsConsistent}
use final_aldaro.Gateway.Granting.{allocate-IsConsistent}
use final_aldaro.Gateway.Releasing.{release-IsConsistent}
use final_aldaro.Gateway.Boot.{load_each, end_each, end_stale, reconcile_leases}
use final_aldaro.Gateway.Booting.{reconcile_leases-IsConsistent}
use final_aldaro.Gateway.Exhaustion.{Full, draw_port-finds, allocate-leaks}

abbrev boot : Gateway
boot = record { endpoints = []; active_allocations = []; allocated_ports = [] }

boot-IsConsistent : IsConsistent boot
boot-IsConsistent = record {
  durable = record { rows = tt; separate = tt; within = tt };
  in_set = tt;
  cached = tt;
}

-- Successive ports.
abbrev counting : Env
counting = record { random = λ i. i; now = 5; fault = false }

abbrev leased : Gateway
leased = record {
  endpoints = lease_row 7 20_000 20_001 20_002 5 ∷ [];
  active_allocations = new_allocation 7 20_000 20_001 20_002 9 ∷ [];
  allocated_ports = 20_002 ∷ 20_001 ∷ 20_000 ∷ [];
}

first_lease : allocate counting 7 9 boot ≡ (leased, granted 20_000 20_001 20_002)
unfolding allocate allocate_new draw_port persist_lease
first_lease = refl

abbrev down : Env
down = record { random = λ i. i; now = 5; fault = true }

-- A write that fails leaves the Set as it was.
rolled_back : allocate down 7 9 boot ≡ (boot, threw)
unfolding allocate allocate_new draw_port persist_lease
rolled_back = refl

abbrev ended : Gateway
ended = record {
  endpoints = set_released 8 (lease_row 7 20_000 20_001 20_002 5) ∷ [];
  active_allocations = [];
  allocated_ports = [];
}

first_release : release 8 7 leased ≡ (ended, true)
unfolding release forget_lease
first_release = refl

-- The row of an ended lease keeps its ports under the unique indexes: they are not in the Set, but
-- another workspace that draws one of them is refused.
kept_port : allocate counting 11 9 ended ≡ (ended, threw)
unfolding allocate allocate_new draw_port persist_lease
kept_port = refl

allocate-IsConsistent_example : IsConsistent (allocate counting 7 9 boot).0
allocate-IsConsistent_example = allocate-IsConsistent counting 7 9 boot boot-IsConsistent

leased-IsConsistent : IsConsistent leased
unfolding allocate allocate_new draw_port persist_lease
leased-IsConsistent = allocate-IsConsistent_example

release-IsConsistent_example : IsConsistent (release 8 7 leased).0
release-IsConsistent_example = release-IsConsistent 8 7 leased leased-IsConsistent

-- The process restarts; the workspace 7 has failed meanwhile.
abbrev restarted : Gateway
restarted = record { endpoints = leased.endpoints; active_allocations = []; allocated_ports = [] }

restart_ends : reconcile_leases (λ w. 9) (λ w. w == 7) (λ e. 8) restarted ≡ ended
unfolding reconcile_leases load_each restore_lease end_each end_stale
restart_ends = refl

restart_loads :
    (reconcile_leases (λ w. 9) (λ w. false) (λ e. 8) restarted).active_allocations
    ≡ leased.active_allocations
unfolding reconcile_leases load_each restore_lease end_each end_stale
restart_loads = refl

reconcile_leases-IsConsistent_example :
    IsConsistent (reconcile_leases (λ w. 9) (λ w. w == 7) (λ e. 8) restarted)
reconcile_leases-IsConsistent_example =
    reconcile_leases-IsConsistent (λ w. 9) (λ w. w == 7) (λ e. 8) restarted
      (record { no_entries = refl; no_ports = refl }) leased-IsConsistent.durable

draw_port-finds_example :
    (p : ℕ) × ((j : ℕ) × ((draw_port (λ i. 1) 1000 0 (20_000 ∷ []) ≡ some (p, j))
        × ((has p (20_000 ∷ []) ≡ false) × (port_range_start ≤ p) × (p < port_range_end))))
draw_port-finds_example =
    draw_port-finds (λ i. 1) 3 (20_000 ∷ []) (λ k. omega arith) (omega arith) refl

-- Every port of the range but the first is taken.
span : ℕ → ℕ → List ℕ
span a zero = []
span a (suc n) = a ∷ span (a + 1) n

has-span : (k a n : ℕ) → a ≤ k → k < a + n → has k (span a n) ≡ true
unfolding span
has-span k a zero low high = absurd (omega (arith, low, high))
has-span k a (suc n) low high = elim (Bool-cases (a == k)) [
  | inl same ↦ rw same refl
  | inr other ↦ rw other (has-span k (a + 1) n (ground arith) (omega (arith, high)))
]

has-span-below : (k a n : ℕ) → k < a → has k (span a n) ≡ false
unfolding span
has-span-below k a zero low = refl
has-span-below k a (suc n) low = ground (arith, has-span-below k (a + 1) n)

abbrev crowded : Gateway
crowded = record { endpoints = []; active_allocations = []; allocated_ports = span 20_001 19_999 }

abbrev stuck : Env
stuck = record { random = λ i. 0; now = 5; fault = false }

first_draw :
    (random : ℕ → ℕ) (attempts i : ℕ) (ports : List ℕ)
    → has (random i + port_range_start) ports ≡ false
    → draw_port random (suc attempts) i ports ≡ some (random i + port_range_start, i + 1)
unfolding draw_port
first_draw random attempts i ports free = rw free refl

stuck_draw : draw_port stuck.random 1000 0 crowded.allocated_ports ≡ some (20_000, 1)
stuck_draw =
    first_draw stuck.random 999 0 crowded.allocated_ports
      (has-span-below 20_000 20_001 19_999 (omega arith))

crowded-Full : Full (20_000 ∷ crowded.allocated_ports)
crowded-Full k low high = elim (Bool-cases (20_000 == k)) [
  | inl same ↦ rw same refl
  | inr other ↦ rw other (has-span k 20_001 19_999 (ground arith) (omega arith))
]

allocate-leaks_example :
    allocate stuck 7 9 crowded
    ≡ (record crowded { allocated_ports = 20_000 ∷ crowded.allocated_ports }, threw)
allocate-leaks_example =
    allocate-leaks stuck 7 9 20_000 1 crowded (λ k. omega arith) refl refl stuck_draw crowded-Full
