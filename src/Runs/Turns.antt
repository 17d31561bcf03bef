-- ===== src/Runs/Turns.antt =====
-- The books under one turn of each stage of worker/src/jobs/run-executor.ts.
use final_aldaro.Common.{
  ℕ, String, ◌≡◌, ◌⊎◌, refl, sym, ◌∙◌, ap, subst, inl, inr, false, ◌==◌, arith, any, is_some,
  find_many, Bool-cases, Option-cases,
}
use final_aldaro.Cleanup.Rows.{Workspace}
use final_aldaro.Runs.Rows.{
  Run, RunStatus, RunError, RunWorld, Outside, AgentReply, queued, provisioning, initializing,
  running, uploading_artifacts, completed, timed_out, provisioning_failed, initialization_error, ok,
  failure, is_finished, on_run,
}
use final_aldaro.Runs.Lifecycle.{
  Next, Reach, stay, one, provision, boot, start, complete_upload, expire, fail,
}
use final_aldaro.Runs.Billing.{clean_up_after}
use final_aldaro.Runs.Stages.{
  or_give_up, give_up_row, move_row, attach_row, start_row, refuse_row, is_warm_for, best_scored,
  attach_workspace, provision_run_workspace, process_queued_run, check_workspace, workspace_of,
  process_provisioning_run, execute, initialize_run, process_initializing_run,
}
use final_aldaro.Runs.Monitor.{
  time_out_row, time_out_run, check_run_timeout, check_run_heartbeat, process_running_run,
  process_uploading_run, close_infra_row, process_timed_out_run,
}
use final_aldaro.Runs.Book.{
  Found, IsBook, Turn, Turning, Turn-refl, Turn-change, IsSound-end, IsSound-move,
}
use final_aldaro.Runs.Billed.{Turning-settle, finalize_run-Turn, fail_run-Turn}

-- A turn in one of the stages, for a run that was found in the stage's status.
abbrev pub Keeps : (Run → Type 0) → (Run → RunWorld → RunWorld) → Type 0
Keeps Ready step =
    (r : Run) (w : RunWorld)
    → Ready r
    → IsBook w.runs w.meter
    → Found r w.runs
    → Turning r.id w (step r w)

unchanged : (r : Run) (w : RunWorld) → IsBook w.runs w.meter → Turning r.id w w
unchanged r w b = Turn-refl r.id w.runs w.meter b

-- A change that moves the status and no seconds.
moved :
    (f : Run → Run) (r : Run) (w : RunWorld)
    → ((x : Run) → (f x).id ≡ x.id)
    → (f r).stripe_usage_reported ≡ r.stripe_usage_reported
    → (f r).billed_seconds ≡ r.billed_seconds
    → Reach r.status (f r).status
    → IsBook w.runs w.meter
    → Found r w.runs
    → Turning r.id w (on_run r.id f w)
moved f r w same flag bill moves b found =
    Turn-change f r w.runs w.meter
      (IsSound-move f r same w.meter flag bill moves (b.settled r found)) b found

-- The same change, of a state that is still to come.
moved_by :
    (f : Run → Run) (r : Run)
    → ((x : Run) → (f x).id ≡ x.id)
    → (f r).stripe_usage_reported ≡ r.stripe_usage_reported
    → (f r).billed_seconds ≡ r.billed_seconds
    → Reach r.status (f r).status
    → (v : RunWorld) → IsBook v.runs v.meter
    → Found r v.runs
    → Turning r.id v (on_run r.id f v)
moved_by f r same flag bill moves v b found = moved f r v same flag bill moves b found

-- What requests write while an agent is called is no row of a run and no meter event.
pub record IsCalm (out : Outside) : Type 0 where
  pub runs : (id : ℕ) (w : RunWorld) → (out.meanwhile id w).runs ≡ w.runs
  pub meter : (id : ℕ) (w : RunWorld) → (out.meanwhile id w).meter ≡ w.meter

calmly :
    (out : Outside)
    → IsCalm out
    → (f : Run → Run) (r : Run) (w : RunWorld)
    → ((v : RunWorld) → IsBook v.runs v.meter → Found r v.runs → Turning r.id v (on_run r.id f v))
    → IsBook w.runs w.meter
    → Found r w.runs
    → Turning r.id w (on_run r.id f (out.meanwhile r.id w))
calmly out calm f r w step b found =
    let v = out.meanwhile r.id w in
    let same = calm.runs r.id w in
    let book : IsBook v.runs v.meter = rw same (rw (calm.meter r.id w) b) in
    let there : Found r v.runs = rw same found in
    subst (λ runs. Turn r.id runs (on_run r.id f v).runs v.meter) same (step v book there)

given_up :
    (error : RunError) (now : ℕ) (r : Run) (w : RunWorld)
    → is_finished r.status ≡ false
    → IsBook w.runs w.meter
    → Found r w.runs
    → Turning r.id w (on_run r.id (give_up_row error now) w)
given_up error now r w unfinished b found =
    moved (give_up_row error now) r w (λ x. refl) refl refl (one (fail unfinished)) b found

abbrev pub In : RunStatus → Run → Type 0
In status r = r.status ≡ status

-- A status that is read off a row stands in a step of the lifecycle.
from : {s t : RunStatus} (r : Run) → In s r → Next s t → Reach r.status t
from {t = t} r e n = subst (λ q. Reach q t) (sym e) (one n)

open_status :
    (s : RunStatus) (r : Run) → In s r → is_finished s ≡ false → is_finished r.status ≡ false
open_status s r e h = ap is_finished e ∙ h

module _ (out : Outside) (now : ℕ) where
  attach_workspace-Turn : Keeps (In queued) (attach_workspace out now)
  unfolding attach_workspace
  attach_workspace-Turn r w e b found =
      elim (Option-cases (best_scored (find_many (is_warm_for r) w.platform.workspaces))) [
        | inl cold ↦
            rw (cold, attach_workspace)
              (moved (attach_row (out.workspace_id_for r.id) now) r w (λ x. refl) refl refl
                (from r e provision) b found)
        | inr (ws, warm) ↦
            rw (warm, attach_workspace)
              (moved (attach_row ws.id now) r w (λ x. refl) refl refl (from r e provision) b found)
      ]

  pub process_queued_run-Turn : Keeps (In queued) (process_queued_run out now)
  unfolding process_queued_run provision_run_workspace or_give_up
  process_queued_run-Turn r w e b found = elim (Bool-cases (is_some r.upstream_instance_id)) [
    | inl has ↦
        rw (has, process_queued_run, provision_run_workspace)
          (moved (move_row provisioning now) r w (λ x. refl) refl refl (from r e provision) b found)
    | inr bare ↦ elim (Option-cases (out.refused r.id)) [
      | inl taken ↦
          rw (bare, taken, process_queued_run, provision_run_workspace)
            (attach_workspace-Turn r w e b found)
      | inr (message, thrown) ↦
          rw (bare, thrown, process_queued_run, provision_run_workspace)
            (given_up (provisioning_failed message) now r w (open_status queued r e refl) b found)
    ]
  ]

  check_workspace-Turn :
      (ws : Workspace) → Keeps (In provisioning) (λ r w. check_workspace now r ws w)
  unfolding check_workspace
  check_workspace-Turn ws r w e b found =
      let error : RunError = RunError.workspace_failed ws.last_error_code in
      let lost = given_up error now r w (open_status provisioning r e refl) b found in
      let ready =
        moved (move_row initializing now) r w (λ x. refl) refl refl (from r e boot) b found in
      ground (arith, lost, ready, unchanged r w b)

  pub process_provisioning_run-Turn : Keeps (In provisioning) (process_provisioning_run now)
  unfolding process_provisioning_run
  process_provisioning_run-Turn r w e b found = elim (Option-cases (workspace_of r w)) [
    | inl gone ↦
        rw (gone, process_provisioning_run)
          (given_up RunError.workspace_disappeared now r w (open_status provisioning r e refl) b
            found)
    | inr (ws, there) ↦ rw (there, process_provisioning_run) (check_workspace-Turn ws r w e b found)
  ]

  AgentReply-cases : (a : AgentReply) → (a ≡ ok) ⊎ ((m : String) × (a ≡ failure m))
  AgentReply-cases ok = inl refl
  AgentReply-cases (failure m) = inr (m, refl)

  execute-Turn : IsCalm out → Keeps (In initializing) (execute out now)
  unfolding execute
  execute-Turn calm r w e b found = elim (AgentReply-cases (out.agent r.id)) [
    | inl taken ↦
        rw (taken, execute)
          (calmly out calm (start_row now) r w
            (moved_by (start_row now) r (λ x. refl) refl refl (from r e start)) b found)
    | inr (m, refused) ↦
        rw (refused, execute)
          (calmly out calm (refuse_row m now) r w
            (moved_by (refuse_row m now) r (λ x. refl) refl refl (from r e (fail refl))) b found)
  ]

  initialize_run-Turn :
      IsCalm out
      → (address : ℕ)
      → Keeps
          (In initializing)
          (λ r w. or_give_up initialization_error now r w (initialize_run out now r address w))
  unfolding initialize_run or_give_up
  initialize_run-Turn calm address r w e b found =
      let lost = λ (m : String).
        given_up (initialization_error m) now r w (open_status initializing r e refl) b found in
      elim (Bool-cases (any (λ p. p.id == r.project_id) w.projects)) [
        | inr none_there ↦ rw (none_there, initialize_run) (lost "Project not found")
        | inl project ↦ elim (Bool-cases (out.in_subnet address)) [
          | inr outside ↦
              rw (project, outside, initialize_run)
                (lost "VM IP is not in allowed subnet, possible SSRF")
          | inl inside ↦ rw (project, inside, initialize_run) (execute-Turn calm r w e b found)
        ]
      ]

  pub process_initializing_run-Turn :
      IsCalm out → Keeps (In initializing) (process_initializing_run out now)
  unfolding process_initializing_run
  process_initializing_run-Turn calm r w e b found = elim (Option-cases (workspace_of r w)) [
    | inl gone ↦ rw (gone, process_initializing_run) (unchanged r w b)
    | inr (ws, there) ↦ elim (Option-cases ws.vm_internal_ip) [
      | inl bare ↦ rw (there, bare, process_initializing_run) (unchanged r w b)
      | inr (address, known) ↦ elim (Bool-cases (address == 0)) [
        | inl empty ↦ rw (there, known, empty, process_initializing_run) (unchanged r w b)
        | inr full ↦
            rw (there, known, full, process_initializing_run)
              (initialize_run-Turn calm address r w e b found)
      ]
    ]
  ]

  pub process_running_run-Turn : Keeps (In running) (process_running_run out now)
  unfolding process_running_run check_run_timeout time_out_run check_run_heartbeat
  process_running_run-Turn r w e b found =
      let unfinished = open_status running r e refl in
      let timed =
        Turning-settle out now (time_out_row now r) r w
          (clean_up_after out "run_timed_out" now r (on_run r.id (time_out_row now r) w)).platform
          (IsSound-end (time_out_row now r) r (λ x. refl) refl (from r e expire) unfinished refl) b
          found in
      let lost = λ (error : RunError). fail_run-Turn out now error r w unfinished b found in
      ground
        (arith, timed, lost RunError.no_session, lost RunError.heartbeat_timeout, unchanged r w b)

  pub process_uploading_run-Turn : Keeps (In uploading_artifacts) (process_uploading_run out now)
  unfolding process_uploading_run
  process_uploading_run-Turn r w e b found =
      let next = subst (λ q. Next q completed) (sym e) complete_upload in
      let over =
        finalize_run-Turn out now r w next (open_status uploading_artifacts r e refl) b found in
      ground (arith, over, unchanged r w b)

  pub process_timed_out_run-Turn : Keeps (In timed_out) (process_timed_out_run out now)
  unfolding process_timed_out_run
  process_timed_out_run-Turn r w e b found =
      Turning-settle out now (close_infra_row now) r w
        (clean_up_after out "run_timed_out" now r (on_run r.id (close_infra_row now) w)).platform
        (IsSound-move (close_infra_row now) r (λ x. refl) w.meter refl refl stay
          (b.settled r found))
        b found
