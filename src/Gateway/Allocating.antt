-- ===== src/Gateway/Allocating.antt =====
-- What `allocate` does to the leases, part by part.
use mathlib.Core.Bool.{false≢true}
use final_aldaro.Common.{
  ℕ, zero, suc, ◌+◌, ◌≤◌, ◌<◌, ◌≡◌, refl, sym, ap, ◌∙◌, ◌≢◌, inl, inr, true, false, none, some,
  List, [], ◌∷◌, arith, All, All-map, All-both, All-upsert, Distinct-upsert, Pairwise-upsert,
  find_first, find_first-upsert_other, find_first-absent, upsert, Bool-cases,
}
use final_aldaro.Gateway.Leases.{
  Endpoint, Allocation, is_active, endpoint_of, allocation_of, has, add, remove, remove_all,
  draw_port, renew_lease, lease_row, new_allocation, port_range_start, port_range_end,
}
use final_aldaro.Gateway.Consistent.{Avoids, Separate, Within, InSet, Cached, IsDurable}

-- A port that is drawn was not in the Set.
pub draw_port-new :
    (random : ℕ → ℕ) (attempts i : ℕ) (ports : List ℕ) (p j : ℕ)
    → draw_port random attempts i ports ≡ some (p, j)
    → has p ports ≡ false
unfolding draw_port
draw_port-new random zero i ports p j e = cc
draw_port-new random (suc attempts) i ports p j e =
    ground (arith, draw_port-new random attempts (i + 1) ports p j)

pub draw_port-in_range :
    (random : ℕ → ℕ) (attempts i : ℕ) (ports : List ℕ) (p j : ℕ)
    → ((k : ℕ) → random k < 20_000)
    → draw_port random attempts i ports ≡ some (p, j)
    → (port_range_start ≤ p) × (p < port_range_end)
unfolding draw_port
draw_port-in_range random zero i ports p j small e = cc
draw_port-in_range random (suc attempts) i ports p j small e =
    ground (arith, small i, draw_port-in_range random attempts (i + 1) ports p j small)

has-distinct : (p q : ℕ) (ports : List ℕ) → has p ports ≡ false → has q ports ≡ true → q ≢ p
has-distinct p q ports absent present same =
    absurd (false≢true (sym absent ∙ (ap (λ k. has k ports) (sym same) ∙ present)))

-- Three ports as `getUniquePort` hands them out.
pub record Drawn (ports : List ℕ) (p q r : ℕ) : Type 0 where
  pub first : has p ports ≡ false
  pub second : has q (p ∷ ports) ≡ false
  pub third : has r (q ∷ p ∷ ports) ≡ false

not-has : (p q : ℕ) (ports : List ℕ) → has p (q ∷ ports) ≡ false → (q ≢ p) × (has p ports ≡ false)
not-has p q ports h = ground arith

-- An active row has none of the ports that are drawn.
Drawn-Avoids :
    (ports : List ℕ) (p q r : ℕ) (e : Endpoint)
    → Drawn ports p q r
    → InSet ports e
    → is_active e ≡ true
    → Avoids e p × Avoids e q × Avoids e r
Drawn-Avoids ports p q r e d inset live =
    let (s, j, v) = inset live in
    let (qp, q_new) = not-has q p ports d.second in
    let (rq, r_late) = not-has r q (p ∷ ports) d.third in
    let (rp, r_new) = not-has r p ports r_late in
    let other : (k : ℕ) → has k ports ≡ false → Avoids e k = λ k new. (
      has-distinct k e.ssh_port ports new s,
      has-distinct k e.jupyter_port ports new j,
      has-distinct k e.vscode_port ports new v,
    ) in
    (other p d.first, other q q_new, other r r_new)

-- The Set may grow: `ports'` has all that `ports` has.
abbrev pub Grows : List ℕ → List ℕ → Type 0
Grows ports ports' = (k : ℕ) → has k ports ≡ true → has k ports' ≡ true

pub InSet-Grows :
    (ports ports' : List ℕ) (es : List Endpoint)
    → Grows ports ports'
    → All (InSet ports) es
    → All (InSet ports') es
InSet-Grows ports ports' es g =
    All-map (InSet ports) (InSet ports') es (λ e h live.
      let (s, j, v) = h live in (g e.ssh_port s, g e.jupyter_port j, g e.vscode_port v))

pub add-Grows : (p : ℕ) (ports : List ℕ) → Grows ports (add p ports)
add-Grows p ports k h = ground arith

pub has-remove :
    (k p : ℕ) (ports : List ℕ) → k ≢ p → has k ports ≡ true → has k (remove p ports) ≡ true
has-remove k p [] other h = h
has-remove k p (q ∷ ports) other h = ground (arith, has-remove k p ports other)

-- A failed write takes the three ports back, and only those.
pub rollback-Grows :
    (p q r : ℕ) (ports : List ℕ)
    → Drawn ports p q r
    → Grows ports (remove_all p q r (r ∷ q ∷ p ∷ ports))
rollback-Grows p q r ports d k h =
    let (qp, q_new) = not-has q p ports d.second in
    let (rq, r_late) = not-has r q (p ∷ ports) d.third in
    let (rp, r_new) = not-has r p ports r_late in
    has-remove k r _ (has-distinct r k ports r_new h) (
      has-remove k q _ (has-distinct q k ports q_new h)
        (has-remove k p (r ∷ q ∷ p ∷ ports) (has-distinct p k ports d.first h) (ground arith)))

-- Some row with what the lease asks is found after it is written.
find_first-lease :
    (w p q r now : ℕ) (es : List Endpoint)
    → (e : Endpoint) × (find_first
          (endpoint_of w)
          (upsert (endpoint_of w) (renew_lease p q r now) (lease_row w p q r now) es)
        ≡ some e)
      × ((is_active e ≡ true) × (e.ssh_port ≡ p) × (e.jupyter_port ≡ q) × (e.vscode_port ≡ r))
find_first-lease w p q r now [] = (lease_row w p q r now, ground arith, (refl, refl, refl, refl))
find_first-lease w p q r now (e ∷ es) = elim (Bool-cases (endpoint_of w e)) [
  | inl hit ↦ rw hit (renew_lease p q r now e, ground arith, (refl, refl, refl, refl))
  | inr miss ↦ rw miss (rw miss (find_first-lease w p q r now es))
]

module _ (w p q r now ip : ℕ) (es : List Endpoint) (ports : List ℕ) (d : Drawn ports p q r) where
  abbrev written : List Endpoint
  written = upsert (endpoint_of w) (renew_lease p q r now) (lease_row w p q r now) es

  apart :
      (e x : Endpoint)
      → InSet ports e
      → Separate e (lease_row w p q r now)
        × (Separate e (renew_lease p q r now x) × Separate (renew_lease p q r now x) e)
  apart e x inset =
      let free = Drawn-Avoids ports p q r e d inset in
      (
        λ live _. free live,
        (
          λ live _. free live,
          λ _ live.
              let (fp, fq, fr) = free live in
              (
                (λ s. fp.0 (sym s), λ s. fq.0 (sym s), λ s. fr.0 (sym s)),
                (λ s. fp.1 (sym s), λ s. fq.1 (sym s), λ s. fr.1 (sym s)),
                (λ s. fp.2 (sym s), λ s. fq.2 (sym s), λ s. fr.2 (sym s)),
              ),
        ),
      )

  pub written-IsDurable : All (InSet ports) es → IsDurable es → IsDurable written
  written-IsDurable inset v = record {
    rows = Distinct-upsert (λ e. e.workspace_id) w _ _ es refl (λ e. refl) v.rows;
    separate =
        Pairwise-upsert Separate (endpoint_of w) (renew_lease p q r now) (lease_row w p q r now) es
          (All-map _ _ es (λ e h. ((apart e e h).0, λ x. (apart e x h).1)) inset) v.separate;
    within = All-upsert Within (endpoint_of w) _ _ es (λ e _ _ _. within) (λ _. within) v.within;
  }
    where
      within : (p ≢ q) × (p ≢ r) × (q ≢ r)
      within =
          let (qp, q_new) = not-has q p ports d.second in
          let (rq, r_late) = not-has r q (p ∷ ports) d.third in
          let (rp, r_new) = not-has r p ports r_late in (qp, rp, rq)

  pub written-InSet : All (InSet ports) es → All (InSet (r ∷ q ∷ p ∷ ports)) written
  written-InSet inset =
      All-upsert (InSet (r ∷ q ∷ p ∷ ports)) (endpoint_of w) _ _ es (λ e _ _ _. here) (λ _. here)
        (InSet-Grows ports (r ∷ q ∷ p ∷ ports) es (λ k h. ground arith) inset)
    where
      here :
          (has p (r ∷ q ∷ p ∷ ports) ≡ true)
          × (has q (r ∷ q ∷ p ∷ ports) ≡ true)
          × (has r (r ∷ q ∷ p ∷ ports) ≡ true)
      here = (ground arith, ground arith, ground arith)

  other_Cached : (a : Allocation) → allocation_of w a ≡ false → Cached es a → Cached written a
  other_Cached a miss (e, found, b) = (
    e,
    find_first-upsert_other (endpoint_of w) (endpoint_of a.workspace_id) (renew_lease p q r now)
          (lease_row w p q r now) es (ground arith) (λ x hit. (ground arith, ground arith))
        ∙ found,
    b,
  )

  new_Cached : Cached written (new_allocation w p q r ip)
  new_Cached =
      let (e, found, same) = find_first-lease w p q r now es in
      (e, found, record { active = same.0; ssh = same.1; jupyter = same.2; vscode = same.3 })

  pub written-Cached :
      (allocs : List Allocation)
      → find_first (allocation_of w) allocs ≡ none
      → All (Cached es) allocs
      → All (Cached written) (
          upsert
            (allocation_of w)
            (λ _. new_allocation w p q r ip)
            (new_allocation w p q r ip)
            allocs)
  written-Cached allocs absent h =
      All-upsert (Cached written) (allocation_of w) _ _ allocs (λ _ _ _. new_Cached) new_Cached
        (All-map _ (Cached written) allocs (λ a both. other_Cached a both.0 both.1)
          (All-both _ _ allocs (find_first-absent (allocation_of w) allocs absent) h))
