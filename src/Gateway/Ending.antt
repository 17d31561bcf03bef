-- ===== src/Gateway/Ending.antt =====
-- What the end of a lease leaves of the others: the rows, the Map and the Set.
use mathlib.Core.Bool.{false≢true}
use final_aldaro.Common.{
  ℕ, ◌≡◌, refl, sym, ◌∙◌, Bool, true, false, List, arith, All, All-update_many, find_first,
  find_first-update_many_other, update_many, ◌==◌, Distinct-update_many, Pairwise-update_many,
}
use final_aldaro.Gateway.Leases.{
  Endpoint, Allocation, is_active, endpoint_of, allocation_of, active_of, has, remove, remove_all,
  set_released,
}
use final_aldaro.Gateway.Consistent.{Avoids, Separate, Within, InSet, Backs, Cached, IsDurable}
use final_aldaro.Gateway.Allocating.{has-remove}

pub Separate-sym : (e f : Endpoint) → Separate e f → Separate f e
Separate-sym e f apart live_f live_e =
    let (s, j, v) = apart live_e live_f in
    (
      (λ h. s.0 (sym h), λ h. j.0 (sym h), λ h. v.0 (sym h)),
      (λ h. s.1 (sym h), λ h. j.1 (sym h), λ h. v.1 (sym h)),
      (λ h. s.2 (sym h), λ h. j.2 (sym h), λ h. v.2 (sym h)),
    )

-- A test that picks rows of one workspace, its active one among them.
pub record Picks (w : ℕ) (p : Endpoint → Bool) : Type 0 where
  pub only : (e : Endpoint) → p e ≡ true → endpoint_of w e ≡ true
  pub live : (e : Endpoint) → p e ≡ false → is_active e ≡ true → endpoint_of w e ≡ false

pub active_of-Picks : (w : ℕ) → Picks w (active_of w)
active_of-Picks w = record { only = λ e h. ground arith; live = λ e h k. ground arith }

module _ (now w : ℕ) (p : Endpoint → Bool) (picks : Picks w p) (es : List Endpoint) where
  abbrev pub after : List Endpoint
  after = update_many p (set_released now) es

  pub after-IsDurable : IsDurable es → IsDurable after
  after-IsDurable v = record {
    rows = Distinct-update_many (λ e. e.workspace_id) p _ es (λ e. refl) v.rows;
    separate =
        Pairwise-update_many Separate p (set_released now) es
          (λ x y _ _ live. absurd (false≢true live)) (λ x y _ live. absurd (false≢true live))
          v.separate;
    within =
        All-update_many Within Within p (set_released now) es
          (λ e _ _ live. absurd (false≢true live)) (λ e h _. h) v.within;
  }

  -- A lease that is active afterwards is another workspace's, and was active before.
  abbrev pub Other : (Endpoint → Type 0) → Endpoint → Type 0
  Other P e = is_active e ≡ true → (endpoint_of w e ≡ false) × P e

  pub after-Other : (P : Endpoint → Type 0) → All P es → All (Other P) after
  after-Other P =
      All-update_many P (Other P) p (set_released now) es (λ e _ _ live. absurd (false≢true live))
        (λ e h miss live. (picks.live e miss live, h))

  pub after-found :
      (k : ℕ) → (k == w) ≡ false → find_first (endpoint_of k) after ≡ find_first (endpoint_of k) es
  after-found k other =
      find_first-update_many_other p (endpoint_of k) (set_released now) es
        (λ x hit. let own = picks.only x hit in (ground arith, ground arith))

  pub after-Cached : (a : Allocation) → Cached es a → allocation_of w a ≡ false → Cached after a
  after-Cached a (e, found, b) miss = (e, after-found a.workspace_id miss ∙ found, b)

-- The ports of a row that avoids the three stay in the Set.
pub kept :
    (a : Allocation) (e x : Endpoint) (ports : List ℕ)
    → Backs a e
    → Separate e x
    → is_active x ≡ true
    → InSet ports x
    → (has x.ssh_port (remove_all a.ssh a.jupyter a.vscode ports) ≡ true)
      × (has x.jupyter_port (remove_all a.ssh a.jupyter a.vscode ports) ≡ true)
      × (has x.vscode_port (remove_all a.ssh a.jupyter a.vscode ports) ≡ true)
kept a e x ports b apart live inset =
    let (s, j, v) = inset live in
    let (ns, nj, nv) = apart b.active live in
    (one x.ssh_port ns s, one x.jupyter_port nj j, one x.vscode_port nv v)
  where
    one :
        (k : ℕ)
        → Avoids e k
        → has k ports ≡ true
        → has k (remove_all a.ssh a.jupyter a.vscode ports) ≡ true
    one k (s, j, v) h =
        has-remove k a.vscode (remove a.jupyter (remove a.ssh ports))
          (λ same. v (b.vscode ∙ sym same))
          (has-remove k a.jupyter (remove a.ssh ports) (λ same. j (b.jupyter ∙ sym same))
            (has-remove k a.ssh ports (λ same. s (b.ssh ∙ sym same)) h))
