-- ===== src/Fleet/Bounded.antt =====
-- How many clones run on a node at once: the semaphore of worker/src/jobs/warm-pool.ts and the machines that are
-- built under it.
use final_aldaro.Common.{
  ℕ, ◌≤◌, ◌<◌, ◌≡◌, inl, inr, List, ◌==◌, arith, All, Bool-cases, count, count-append_one,
  count-append_miss, count_update_many-le,
}
use final_aldaro.Billing.Rows.{Failure}
use final_aldaro.Fleet.Build.{Step, give_up, build, warm_steps, cold_steps}
use final_aldaro.Fleet.Claim.{claimed, claim_gpu, roll_back_gpu}
use final_aldaro.Fleet.Clones.{
  may_clone, acquire_clone_semaphore, release_clone_semaphore, cleanup_orphaned_semaphores,
  new_semaphore, let_go, is_orphaned,
}
use final_aldaro.Fleet.Placing.{IsPlacing}
use final_aldaro.Fleet.Steps.{build_or_defer-kept}
use final_aldaro.Fleet.Rows.{Fleet, Hands, held_on, held_by}
use final_aldaro.Fleet.Spawn.{delete_workspace, unplace}

-- No node has more clones under way than the limit.
abbrev pub Within : ℕ → Fleet → Type 0
Within limit fl = (node : ℕ) → count (held_on node) fl.semaphores ≤ limit

module _ (limit : ℕ) where
  abbrev pub Safe : (Fleet → Fleet) → Type 0
  Safe f = (fl : Fleet) → Within limit fl → Within limit (f fl)

  pub release-Safe : (now w : ℕ) → Safe (release_clone_semaphore now w)
  unfolding release_clone_semaphore
  release-Safe now w fl ok node = omega (
    arith,
    count_update_many-le (held_by w) (held_on node) (let_go now) fl.semaphores
        (λ s h. absurd (ground arith)),
    ok node,
  )

  pub cleanup-Safe : (now : ℕ) → Safe (cleanup_orphaned_semaphores now)
  unfolding cleanup_orphaned_semaphores
  cleanup-Safe now fl ok node = omega (
    arith,
    count_update_many-le (is_orphaned now) (held_on node) (let_go now) fl.semaphores
        (λ s h. absurd (ground arith)),
    ok node,
  )

  -- What a machine's builder may rely on.
  pub record IsHand (h : Hands) : Type 0 where
    pub bound : h.max_concurrent_clones ≡ limit
    pub others : Safe h.before_claim

  acquire-Within :
      (h : Hands) (node w : ℕ) (fl : Fleet)
      → IsHand h
      → Within limit fl
      → Within limit (acquire_clone_semaphore h node w fl).0
  unfolding acquire_clone_semaphore may_clone
  acquire-Within h node w fl hand ok n =
      let new = new_semaphore node w h.now in
      elim (Bool-cases (may_clone h node w fl.semaphores)) [
        | inr full ↦ rw (full, acquire_clone_semaphore) (ok n)
        | inl room ↦
            rw (room, acquire_clone_semaphore)
              (elim (Bool-cases (node == n)) [
                | inr other ↦
                    rw (count-append_miss (held_on n) fl.semaphores new (ground arith)) (ok n)
                | inl same ↦
                    let here : count (held_on node) fl.semaphores < h.max_concurrent_clones =
                      ground arith in
                    let at : node ≡ n = ground arith in
                    let bound = hand.bound in
                    let less : count (held_on n) fl.semaphores < limit =
                      rw (← at) (rw (← bound) here) in
                    omega (arith, count-append_one (held_on n) fl.semaphores new)
              ])
      ]

  give_up-Safe : (h : Hands) (w gpu : ℕ) (f : Failure) → Safe (give_up h w gpu f)
  unfolding give_up roll_back_gpu
  give_up-Safe h w gpu f fl ok = release-Safe h.time_failed w fl ok

  build-Safe :
      (h : Hands) (steps : List Step) (defer : Fleet → Fleet) (w gpu node : ℕ)
      → IsHand h
      → All (λ s. Safe s.change) steps
      → Safe defer
      → Safe (build h steps defer w gpu node)
  unfolding build roll_back_gpu
  build-Safe h steps defer w gpu node hand safe safe' fl ok =
      build_or_defer-kept (Within limit) (Within limit) h steps defer w gpu safe (λ fl ok. ok)
        (λ f. give_up-Safe h w gpu f) (λ fl ok. safe' (roll_back_gpu w gpu fl) ok)
        (acquire_clone_semaphore h node w fl) (acquire-Within h node w fl hand ok)

  -- What leaves the semaphores alone.
  same : Safe (λ fl. fl)
  same fl ok = ok

  warm_steps-Safe : (h : Hands) (w : ℕ) → All (λ s. Safe s.change) (warm_steps h w)
  warm_steps-Safe h w = (
    same,
    (
      same,
      (
        release-Safe _ w,
        (
          (λ fl ok. ok),
          (same, ((λ fl ok. ok), ((λ fl ok. ok), (same, (same, (same, ((λ fl ok. ok), tt))))))),
        ),
      ),
    ),
  )

  cold_steps-Safe : (h : Hands) (w : ℕ) → All (λ s. Safe s.change) (cold_steps h w)
  cold_steps-Safe h w = (
    same,
    (
      same,
      (
        release-Safe _ w,
        ((λ fl ok. ok), (same, ((λ fl ok. ok), (same, (same, (same, ((λ fl ok. ok), tt))))))),
      ),
    ),
  )

  claim_gpu-Within :
      (h : Hands) (w gpu : ℕ) (fl fl' : Fleet)
      → Within limit fl
      → claim_gpu h w gpu fl ≡ claimed fl'
      → Within limit fl'
  unfolding claim_gpu
  claim_gpu-Within h w gpu fl fl' ok won node =
      let kept : fl'.semaphores ≡ fl.semaphores = ground arith in rw kept (ok node)

  pub placing : (h : Hands) → IsHand h → IsPlacing (Within limit) h
  placing h hand = record {
    untouched = λ fl fl' same ok node. rw same.semaphores (ok node);
    others = hand.others;
    warm = λ w gpu node fl fl' ok won.
        build-Safe h (warm_steps h w) (delete_workspace w) w gpu node hand (warm_steps-Safe h w)
          (λ fl ok. ok) fl' (claim_gpu-Within h w gpu fl fl' ok won);
    cold = λ w gpu node fl fl' ok won.
        build-Safe h (cold_steps h w) (unplace h w) w gpu node hand (cold_steps-Safe h w)
          (λ fl ok. ok) fl' (claim_gpu-Within h w gpu fl fl' ok won);
  }
