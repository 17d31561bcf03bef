-- ===== src/Gateway/Exhaustion.antt =====
-- `getUniquePort` where ports run short.
use final_aldaro.Common.{
  ℕ, zero, suc, ◌+◌, ◌≤◌, ◌<◌, ◌≡◌, refl, subst, ◌≢◌, inl, inr, true, false, none, some, List, ◌∷◌,
  arith, find_first, Bool-cases, Option-cases,
}
use final_aldaro.Gateway.Leases.{
  Gateway, Env, threw, allocation_of, endpoint_of, has, draw_port, allocate_new, allocate,
  port_range_start, port_range_end,
}
use final_aldaro.Gateway.Allocating.{draw_port-new, draw_port-in_range}

draw_port-some :
    (random : ℕ → ℕ) (attempts i n : ℕ) (ports : List ℕ)
    → n < attempts
    → has (random (i + n) + port_range_start) ports ≡ false
    → draw_port random attempts i ports ≢ none
unfolding draw_port
draw_port-some random zero i n ports enough free = λ _. omega (arith, enough)
draw_port-some random (suc attempts) i zero ports enough free =
    let here : has (random i + port_range_start) ports ≡ false =
      subst (λ k. has (random k + port_range_start) ports ≡ false) (omega arith) free in
    rw here (λ e. ground arith)
draw_port-some random (suc attempts) i (suc n) ports enough free =
    let later : has (random (i + 1 + n) + port_range_start) ports ≡ false =
      subst (λ k. has (random k + port_range_start) ports ≡ false) (omega arith) free in
    let rest = draw_port-some random attempts (i + 1) n ports (omega (arith, enough)) later in
    elim (Bool-cases (has (random i + port_range_start) ports)) [
      | inl taken ↦ rw taken rest
      | inr new ↦ rw new (λ e. ground arith)
    ]

-- If one of the 1000 draws of `getUniquePort` is of a port that the Set lacks, and the draws are
-- below the size of the range, it returns a port of the range that the Set lacks.
pub draw_port-finds :
    (random : ℕ → ℕ) (n : ℕ) (ports : List ℕ)
    → ((k : ℕ) → random k < 20_000)
    → n < 1000
    → has (random n + port_range_start) ports ≡ false
    → (p : ℕ) × ((j : ℕ) × ((draw_port random 1000 0 ports ≡ some (p, j))
          × ((has p ports ≡ false) × (port_range_start ≤ p) × (p < port_range_end))))
draw_port-finds random n ports small enough free =
    elim (Option-cases (draw_port random 1000 0 ports)) [
      | inl empty ↦ absurd (
          draw_port-some random 1000 0 n ports enough
            (subst (λ k. has (random k + port_range_start) ports ≡ false) (omega arith) free) empty)
      | inr ((p, j), e) ↦
          let (low, high) = draw_port-in_range random 1000 0 ports p j small e in
          (p, (j, (e, (draw_port-new random 1000 0 ports p j e, low, high))))
    ]

-- No port of the range is free.
abbrev pub Full : List ℕ → Type 0
Full ports = (k : ℕ) → port_range_start ≤ k → k < port_range_end → has k ports ≡ true

draw_port-Full :
    (random : ℕ → ℕ) (attempts i : ℕ) (ports : List ℕ)
    → ((k : ℕ) → random k < 20_000)
    → Full ports
    → draw_port random attempts i ports ≡ none
unfolding draw_port
draw_port-Full random zero i ports small full = refl
draw_port-Full random (suc attempts) i ports small full =
    let taken : has (random i + port_range_start) ports ≡ true =
      full _ (omega arith) (omega (arith, small i)) in
    rw taken (draw_port-Full random attempts (i + 1) ports small full)

-- A leak: where one port of the range is free, draws are below the size of the range, and the
-- workspace has neither an entry in the Map nor a row, a request that draws that port throws, and
-- the port stays in the Set, so that no port of the range is free any more.
pub allocate-leaks :
    (env : Env) (w ip p i : ℕ) (g : Gateway)
    → ((k : ℕ) → env.random k < 20_000)
    → find_first (allocation_of w) g.active_allocations ≡ none
    → find_first (endpoint_of w) g.endpoints ≡ none
    → draw_port env.random 1000 0 g.allocated_ports ≡ some (p, i)
    → Full (p ∷ g.allocated_ports)
    → allocate env w ip g ≡ (record g { allocated_ports = p ∷ g.allocated_ports }, threw)
unfolding allocate allocate_new
allocate-leaks env w ip p i g small absent no_row drawn full =
    rw (absent, allocate)
      (rw (no_row, allocate)
        (rw (drawn, allocate_new)
          (rw (draw_port-Full env.random 1000 i (p ∷ g.allocated_ports) small full, allocate_new)
            refl)))
