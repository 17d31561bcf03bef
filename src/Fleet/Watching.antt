-- ===== src/Fleet/Watching.antt =====
-- What `processWaitingWorkspaces` of worker/src/jobs/warm-pool.ts leaves alone: semaphores, GPUs and allocations.
use final_aldaro.Common.{
  ℕ, ◌≡◌, refl, Bool, true, false, Option, none, some, ◌∙◌, if◌then◌else◌, ltb, ◌&&◌, not, is_some,
  find_first,
}
use final_aldaro.Cleanup.Rows.{Workspace, Platform, workspace_with_id}
use final_aldaro.Cleanup.Attempt.{has_vm}
use final_aldaro.Billing.Start.{start_cold_session}
use final_aldaro.Fleet.Claim.{change_workspace, on_platform}
use final_aldaro.Fleet.Rows.{Fleet}
use final_aldaro.Fleet.Waiting.{
  Watch, Address, address, unreachable, note_ip, ip_row, bill_cold, make_ready, ready_row,
  enqueue_timeout, timeout_row, has_ip, beats, give_up_waiting, check_waiting, waited_too_long,
  process_waiting_workspace,
}

pub record Untouched (fl fl' : Fleet) : Type 0 where
  pub semaphores : fl'.semaphores ≡ fl.semaphores
  pub gpus : fl'.platform.gpus ≡ fl.platform.gpus
  pub allocations : fl'.platform.allocations ≡ fl.platform.allocations

unchanged : (fl : Fleet) → Untouched fl fl
unchanged fl = record { semaphores = refl; gpus = refl; allocations = refl }

and_so : (a b c : Fleet) → Untouched a b → Untouched b c → Untouched a c
and_so a b c x y = record {
  semaphores = y.semaphores ∙ x.semaphores;
  gpus = y.gpus ∙ x.gpus;
  allocations = y.allocations ∙ x.allocations;
}

-- Whichever way a test goes.
either :
    (b : Bool) (fl x y : Fleet)
    → Untouched fl x
    → Untouched fl y
    → Untouched fl (if b then x else y)
either true fl x y u v = u
either false fl x y u v = v

note_ip-Untouched :
    (t : Watch) (ws : Workspace) (ip : Option ℕ) (fl : Fleet) → Untouched fl (note_ip t ws ip fl)
unfolding note_ip
note_ip-Untouched t ws none fl = unchanged fl
note_ip-Untouched t ws (some ip) fl =
    either (ltb 0 ip && not (has_ip ws)) fl (change_workspace ws.id (ip_row ip t.now) fl) fl
      (record { semaphores = refl; gpus = refl; allocations = refl }) (unchanged fl)

bill_cold-Untouched :
    (t : Watch) (fresh : Workspace) (user : Option ℕ) (fl : Fleet)
    → Untouched fl (bill_cold t fresh user fl)
unfolding bill_cold
bill_cold-Untouched t fresh none fl = unchanged fl
bill_cold-Untouched t fresh (some user) fl =
    let billed =
      on_platform
        (λ (p : Platform). record p {
          ledger =
              start_cold_session t.session_id user fresh.id fresh.gpu_type
                fresh.locked_spot_price_cents t.now p.ledger fl.catalog p.ledger;
        })
        fl in
    either fresh.is_warm_pool fl fl billed (unchanged fl)
      (record { semaphores = refl; gpus = refl; allocations = refl })

make_ready-Untouched :
    (t : Watch) (fresh : Option Workspace) (fl : Fleet) → Untouched fl (make_ready t fresh fl)
unfolding make_ready
make_ready-Untouched t none fl = unchanged fl
make_ready-Untouched t (some fresh) fl =
    let row = change_workspace fresh.id (ready_row t.now fresh) fl in
    let u = bill_cold-Untouched t fresh fresh.assigned_user_id row in
    either (has_ip fresh && beats t.now fresh.last_agent_heartbeat_at) fl
      (bill_cold t fresh fresh.assigned_user_id row) fl
      (record { semaphores = u.semaphores; gpus = u.gpus; allocations = u.allocations })
      (unchanged fl)

give_up_waiting-Untouched :
    (t : Watch) (ws : Workspace) (fl : Fleet) → Untouched fl (give_up_waiting t ws fl)
unfolding give_up_waiting
give_up_waiting-Untouched t ws fl =
    let given_up =
      on_platform (enqueue_timeout t ws.id) (change_workspace ws.id (timeout_row t.now) fl) in
    either (waited_too_long t.now ws) fl given_up fl
      (record { semaphores = refl; gpus = refl; allocations = refl }) (unchanged fl)

check_waiting-Untouched :
    (t : Watch) (ws : Workspace) (ip : Option ℕ) (fl : Fleet)
    → Untouched fl (check_waiting t ws ip fl)
unfolding check_waiting
check_waiting-Untouched t ws ip fl =
    let seen = note_ip t ws ip fl in
    let fresh = find_first (workspace_with_id ws.id) seen.platform.workspaces in
    let ready = make_ready t fresh seen in
    let noted = note_ip-Untouched t ws ip fl in
    either (is_some fresh) fl (give_up_waiting t ws ready) seen
      (and_so fl seen (give_up_waiting t ws ready) noted (
        and_so seen ready (give_up_waiting t ws ready) (make_ready-Untouched t fresh seen)
          (give_up_waiting-Untouched t ws ready)))
      noted

pub process_waiting_workspace-Untouched :
    (t : Watch) (ws : Workspace) (fl : Fleet) → Untouched fl (process_waiting_workspace t ws fl)
unfolding process_waiting_workspace
process_waiting_workspace-Untouched t ws fl = by_address t.ip
  where
    by_address :
        (a : Address)
        → Untouched fl (elim a as (λ _. Fleet) [
          | unreachable ↦ fl
          | address ip ↦ if has_vm ws then check_waiting t ws ip fl else fl
        ])
    by_address unreachable = unchanged fl
    by_address (address ip) =
        either (has_vm ws) fl (check_waiting t ws ip fl) fl (check_waiting-Untouched t ws ip fl)
          (unchanged fl)
