-- ===== src/Fleet/Limited.antt =====
-- A tick of the warm pool (`warmPoolTick` of worker/src/jobs/warm-pool.ts) against the bound on clones.
use final_aldaro.Common.{ℕ}
use final_aldaro.Fleet.Bounded.{Within, Safe, IsHand, cleanup-Safe, placing}
use final_aldaro.Fleet.Placing.{spawn_warm_workspace_kept, provision_cold_workspace_kept}
use final_aldaro.Fleet.Watching.{process_waiting_workspace-Untouched}
use final_aldaro.Fleet.Pool.{PoolTick, warm_pool_tick}
use final_aldaro.Fleet.Rows.{Fleet}
use final_aldaro.Fleet.Turns.{IsKept, warm_pool_tick-kept}

-- Every builder of a tick knows the limit, and what others write between keeps to it.
pub record IsTick (limit : ℕ) (t : PoolTick) : Type 0 where
  pub spawns : (config i : ℕ) → IsHand limit (t.spawns config i)
  pub provisions : (workspace : ℕ) → IsHand limit (t.provisions workspace)
  pub others : (workspace : ℕ) → Safe limit (t.others workspace)

turns : (limit : ℕ) (t : PoolTick) → IsTick limit t → IsKept (Within limit) t
turns limit t tick = record {
  cleaned = cleanup-Safe limit t.now;
  spawned = λ cfg i.
      spawn_warm_workspace_kept (t.spawns cfg.id i)
        (placing limit (t.spawns cfg.id i) (tick.spawns cfg.id i)) cfg;
  stopped = λ ws fl ok. ok;
  provisioned = λ ws.
      provision_cold_workspace_kept (t.provisions ws.id)
        (placing limit (t.provisions ws.id) (tick.provisions ws.id)) ws;
  watched = λ ws fl ok node.
      let same = process_waiting_workspace-Untouched (t.watches ws.id) ws fl in
      rw same.semaphores (ok node);
  others = λ ws. tick.others ws.id;
}

-- Where no node has more unreleased clone semaphores than a limit that every acquisition of the
-- tick uses, and others keep to it, none has more after a whole tick of the warm pool.
pub warm_pool_tick-Within :
    (limit : ℕ) (t : PoolTick) (fl : Fleet)
    → IsTick limit t
    → Within limit fl
    → Within limit (warm_pool_tick t fl)
warm_pool_tick-Within limit t fl tick ok = warm_pool_tick-kept t (turns limit t tick) fl ok
