-- ===== src/Gateway/Ended.antt =====
-- What the second loop of `reconcileLeases` (apps/gateway/src/index.ts) leaves of stale leases.
use mathlib.Core.Bool.{false≢true}
use final_aldaro.Common.{
  ℕ, ◌≡◌, inl, inr, Bool, true, false, List, [], ◌∷◌, arith, All, All-map, All-update_many,
  find_many, any, Bool-cases, if◌then◌else◌, ◌==◌, ==_refl,
}
use final_aldaro.Gateway.Leases.{Endpoint, Gateway, is_active, endpoint_of, set_released}
use final_aldaro.Gateway.Boot.{load_each, end_stale, end_each, is_stale, reconcile_leases}

-- The stale leases that are still to be ended.
abbrev Todo : (ℕ → Bool) → List Endpoint → Endpoint → Type 0
Todo gone es r =
    is_active r ≡ true
    → gone r.workspace_id ≡ true
    → any (λ e. e.workspace_id == r.workspace_id) es ≡ true

end_each-Todo :
    (gone : ℕ → Bool) (clock : Endpoint → ℕ) (es : List Endpoint) (g : Gateway)
    → All (Todo gone es) g.endpoints
    → All (Todo gone []) (end_each clock es g).endpoints
unfolding end_each end_stale
end_each-Todo gone clock [] g h = h
end_each-Todo gone clock (e ∷ es) g h = end_each-Todo gone clock es (end_stale (clock e) e g) (
    All-update_many (Todo gone (e ∷ es)) (Todo gone es) (endpoint_of e.workspace_id)
      (set_released (clock e)) g.endpoints (λ r _ _ live. absurd (false≢true live))
      (λ r todo miss live over. let left = todo live over in ground arith) h)

Todo-more :
    (gone : ℕ → Bool) (stale : Bool) (e : Endpoint) (es rs : List Endpoint)
    → All (Todo gone es) rs
    → All (Todo gone (if stale then e ∷ es else es)) rs
Todo-more gone false e es rs h = h
Todo-more gone true e es rs h =
    All-map (Todo gone es) (Todo gone (e ∷ es)) rs
      (λ r todo live over. let later = todo live over in ground arith) h

Todo-All :
    (gone : ℕ → Bool) (es : List Endpoint) → All (Todo gone (find_many (is_stale gone) es)) es
Todo-All gone [] = tt
Todo-All gone (e ∷ es) = (
  λ live over. ground (arith, ==_refl e.workspace_id),
  Todo-more gone (is_stale gone e) e (find_many (is_stale gone) es) es (Todo-All gone es),
)

-- After the boot no active lease belongs to a workspace that is TERMINATED or FAILED.
pub reconcile_leases-ends :
    (ip_of : ℕ → ℕ) (gone : ℕ → Bool) (clock : Endpoint → ℕ) (g : Gateway)
    → All (λ e. is_stale gone e ≡ false) (reconcile_leases ip_of gone clock g).endpoints
unfolding reconcile_leases
reconcile_leases-ends ip_of gone clock g =
    let l = load_each ip_of (find_many is_active g.endpoints) g in
    All-map (Todo gone []) _ _ (λ e todo. none_left e todo)
      (end_each-Todo gone clock (find_many (is_stale gone) l.endpoints) l
        (Todo-All gone l.endpoints))
  where
    none_left : (e : Endpoint) → Todo gone [] e → is_stale gone e ≡ false
    none_left e todo = elim (Bool-cases (is_stale gone e)) [
      | inl hit ↦ absurd (false≢true (todo (ground arith) (ground arith)))
      | inr miss ↦ miss
    ]
