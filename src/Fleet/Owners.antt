-- ===== src/Fleet/Owners.antt =====
-- A tick of the warm pool (`warmPoolTick` of worker/src/jobs/warm-pool.ts) against the rows of GPUs and allocations.
use final_aldaro.Common.{ℕ, ◌≡◌}
use final_aldaro.Fleet.Build.{warm_steps, cold_steps}
use final_aldaro.Fleet.Claim.{claimed, claim_gpu}
use final_aldaro.Fleet.Clones.{cleanup_orphaned_semaphores}
use final_aldaro.Fleet.Exclusive.{IsExclusive, claim_gpu-IsExclusive}
use final_aldaro.Fleet.Placing.{IsPlacing, spawn_warm_workspace_kept, provision_cold_workspace_kept}
use final_aldaro.Fleet.Pool.{PoolTick, warm_pool_tick}
use final_aldaro.Fleet.Releasing.{terminate_workspace-IsExclusive}
use final_aldaro.Fleet.Rows.{Fleet, Hands}
use final_aldaro.Fleet.Spawn.{delete_workspace, unplace}
use final_aldaro.Fleet.Turns.{Keeps, IsKept, warm_pool_tick-kept}
use final_aldaro.Fleet.Waiting.{process_waiting_workspace}
use final_aldaro.Fleet.Watching.{process_waiting_workspace-Untouched}
use final_aldaro.Fleet.Building.{
  Owned, IsBuilding, Leaves-Owned, warm_steps_kept, cold_steps_kept, built,
}

-- Others keep the tables right, and every builder of the tick is one of the job's own.
pub record IsGuarded (t : PoolTick) : Type 0 where
  pub spawns : (config i : ℕ) → Keeps Owned (t.spawns config i).before_claim
  pub provisions : (workspace : ℕ) → Keeps Owned (t.provisions workspace).before_claim
  pub others : (workspace : ℕ) → Keeps Owned (t.others workspace)

claimed-IsBuilding :
    (h : Hands) (w gpu : ℕ) (fl fl' : Fleet)
    → Owned fl
    → claim_gpu h w gpu fl ≡ claimed fl'
    → IsBuilding w gpu fl'
claimed-IsBuilding h w gpu fl fl' v won =
    let (exclusive, mine) = claim_gpu-IsExclusive h w gpu fl fl' v won in
    record { exclusive = exclusive; mine = mine }

deleted : (w : ℕ) → Keeps Owned (delete_workspace w)
deleted w fl v = record { gpus = v.gpus; once = v.once; held = v.held }

unplaced : (h : Hands) (w : ℕ) → Keeps Owned (unplace h w)
unplaced h w fl v = record { gpus = v.gpus; once = v.once; held = v.held }

placing : (h : Hands) → Keeps Owned h.before_claim → IsPlacing Owned h
placing h others = record {
  untouched = λ fl fl' same.
      Leaves-Owned fl fl' (record { gpus = same.gpus; allocations = same.allocations });
  others = others;
  warm = λ w gpu node fl fl' v won.
      built h w gpu (warm_steps h w) (delete_workspace w) node fl' (warm_steps_kept h w gpu)
        (deleted w) (claimed-IsBuilding h w gpu fl fl' v won);
  cold = λ w gpu node fl fl' v won.
      built h w gpu (cold_steps h w) (unplace h w) node fl' (cold_steps_kept h w gpu) (unplaced h w)
        (claimed-IsBuilding h w gpu fl fl' v won);
}

turns : (t : PoolTick) → IsGuarded t → IsKept Owned t
unfolding cleanup_orphaned_semaphores
turns t g = record {
  cleaned = λ fl v. v;
  spawned = λ cfg i.
      spawn_warm_workspace_kept (t.spawns cfg.id i)
        (placing (t.spawns cfg.id i) (g.spawns cfg.id i)) cfg;
  stopped = λ ws fl v.
      terminate_workspace-IsExclusive (t.stops ws.id) "warm_pool_shrink" ws.id fl.platform v;
  provisioned = λ ws.
      provision_cold_workspace_kept (t.provisions ws.id)
        (placing (t.provisions ws.id) (g.provisions ws.id)) ws;
  watched = λ ws fl v.
      let same = process_waiting_workspace-Untouched (t.watches ws.id) ws fl in
      Leaves-Owned fl (process_waiting_workspace (t.watches ws.id) ws fl)
        (record { gpus = same.gpus; allocations = same.allocations }) v;
  others = λ ws. g.others ws.id;
}

-- Where GPUs have distinct ids, no GPU has two allocations, every unreleased allocation's GPU is
-- ALLOCATED to its workspace, and what others write in between keeps that, a whole tick of the
-- warm pool keeps it too, whatever Proxmox and the transactions answer.
pub warm_pool_tick-IsExclusive :
    (t : PoolTick) (fl : Fleet)
    → IsGuarded t
    → IsExclusive fl.platform
    → IsExclusive (warm_pool_tick t fl).platform
warm_pool_tick-IsExclusive t fl g v = warm_pool_tick-kept t (turns t g) fl v
