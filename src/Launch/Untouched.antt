-- ===== src/Launch/Untouched.antt =====
-- A launch touches the table of operations at its start and at its end alone.
use final_aldaro.Common.{
  ℕ, ◌≡◌, refl, ap, ◌∙◌, inl, inr, true, false, Option, none, some, List, arith, Option-cases,
  Bool-cases, or_else, find_first,
}
use final_aldaro.Cleanup.Rows.{Workspace}
use final_aldaro.Gateway.Leases.{Gateway, Reply, granted, allocate}
use final_aldaro.Launch.Assign.{
  Act, and_then, go_on, claim, take_reply, write_ports, after_call, on_gateway,
  allocate_gateway_ports, start_usage_session_with_status, assign_warm_workspace,
  find_warm_workspace, create_cold_workspace,
}
use final_aldaro.Launch.Rows.{
  Call, answered, lost, Desk, Request, Outside, Thrown, LaunchOperation, operation_of,
}
use final_aldaro.Launch.Service.{
  Outcome, launched, threw, completed_outcome, write_outcome, outcome_of, operation_at,
  launch_workspace_internal, provide, refusal_of,
}

-- An act that leaves a view of the tables as it was.
module _ {ℓ} {A : Type ℓ} (view : Desk → A) where
  abbrev pub Keeps : Act → Type ℓ
  Keeps act = (d : Desk) → view (act d).0 ≡ view d

  go_on-view :
      (second : Act) (x : Desk × Option Thrown) → Keeps second → view (go_on second x).0 ≡ view x.0
  unfolding go_on
  go_on-view second (d, none) kept = kept d
  go_on-view second (d, some t) kept = refl

  pub and_then-Keeps :
      (first second : Act) → Keeps first → Keeps second → Keeps (and_then first second)
  unfolding and_then
  and_then-Keeps first second kept kept' d = go_on-view second (first d) kept' ∙ kept d

  -- The parts of an assignment: what it writes after the claim does not depend on the request.
  pub assign_warm_workspace-Keeps :
      (o : Outside) (r : Request) (ws : Workspace)
      → Keeps (claim r o.now ws.id)
      → ((ip : ℕ) → Keeps (allocate_gateway_ports o ws.id ip))
      → Keeps (start_usage_session_with_status o r.user_id ws.id ws.gpu_type)
      → Keeps (assign_warm_workspace o r ws)
  unfolding assign_warm_workspace
  assign_warm_workspace-Keeps o r ws claimed allocated started =
      let ip = or_else ws.vm_internal_ip 0 in
      let opened = start_usage_session_with_status o r.user_id ws.id ws.gpu_type in
      and_then-Keeps (claim r o.now ws.id) (and_then (allocate_gateway_ports o ws.id ip) opened)
        claimed (and_then-Keeps (allocate_gateway_ports o ws.id ip) opened (allocated ip) started)

  pub view-outcome_of : (w : ℕ) (x : Desk × Option Thrown) → view (outcome_of w x).0 ≡ view x.0
  view-outcome_of w (d, none) = refl
  view-outcome_of w (d, some t) = refl

abbrev operations : Desk → List LaunchOperation
operations d = d.operations

claim-Keeps : (r : Request) (now workspace : ℕ) → Keeps operations (claim r now workspace)
unfolding claim
claim-Keeps r now workspace d = ground arith

take_reply-Keeps : (o : Outside) (w : ℕ) (reply : Reply) → Keeps operations (take_reply o w reply)
unfolding take_reply write_ports
take_reply-Keeps o w (granted p q s) d = refl
take_reply-Keeps o w Reply.threw d = refl

after_call-Keeps :
    (o : Outside) (w : ℕ) (call : Call) (served : Gateway × Reply)
    → Keeps operations (after_call o w call served)
unfolding after_call
after_call-Keeps o w answered (g, reply) d = take_reply-Keeps o w reply (on_gateway g d)
after_call-Keeps o w (lost true t) (g, reply) d = refl
after_call-Keeps o w (lost false t) (g, reply) d = refl

allocate_gateway_ports-Keeps :
    (o : Outside) (w ip : ℕ) → Keeps operations (allocate_gateway_ports o w ip)
unfolding allocate_gateway_ports
allocate_gateway_ports-Keeps o w ip d =
    after_call-Keeps o w o.call (allocate o.gateway w ip d.platform.gateway) d

start_usage_session_with_status-Keeps :
    (o : Outside) (user w gpu : ℕ) → Keeps operations (start_usage_session_with_status o user w gpu)
unfolding start_usage_session_with_status
start_usage_session_with_status-Keeps o user w gpu d = ground arith

assigned :
    (o : Outside) (r : Request) (ws : Workspace) → Keeps operations (assign_warm_workspace o r ws)
assigned o r ws =
    assign_warm_workspace-Keeps operations o r ws (claim-Keeps r o.now ws.id)
      (allocate_gateway_ports-Keeps o ws.id)
      (start_usage_session_with_status-Keeps o r.user_id ws.id ws.gpu_type)

-- What other requests write while a warm workspace is assigned leaves the row of this one alone.
abbrev pub Undisturbed : Outside → Request → Type 0
Undisturbed o r = (d : Desk) → operation_at r (o.before_assign d) ≡ operation_at r d

operations-at :
    (r : Request) (d e : Desk) → d.operations ≡ e.operations → operation_at r d ≡ operation_at r e
operations-at r d e same = ap (find_first (operation_of r.user_id r.operation_key)) same

create_cold_workspace-operations :
    (o : Outside) (r : Request) (d : Desk) → (create_cold_workspace o r d).operations ≡ d.operations
unfolding create_cold_workspace
create_cold_workspace-operations o r d = refl

pub launch_workspace_internal-operation_at :
    (o : Outside) (r : Request) (d : Desk)
    → Undisturbed o r
    → operation_at r (launch_workspace_internal o r d).0 ≡ operation_at r d
unfolding launch_workspace_internal provide
launch_workspace_internal-operation_at o r d calm = elim (Option-cases (refusal_of o r.user_id d)) [
  | inr (t, e) ↦ rw (e, launch_workspace_internal) refl
  | inl e ↦
      rw (e, launch_workspace_internal)
        (elim (Option-cases (find_warm_workspace r d)) [
          | inl none_warm ↦
              rw (none_warm, provide)
                (operations-at r (create_cold_workspace o r d) d
                  (create_cold_workspace-operations o r d))
          | inr (ws, found) ↦
              rw (found, provide)
                (let act : Desk × Option Thrown =
                    assign_warm_workspace o r ws (o.before_assign d) in
                  operations-at r (outcome_of ws.id act).0 (o.before_assign d)
                    (view-outcome_of operations ws.id act ∙ assigned o r ws (o.before_assign d))
                  ∙ calm d)
        ])
]

-- Two desks with the same platform.
pub record Beside (d e : Desk) : Type 0 where
  pub platform : e.platform ≡ d.platform

pub write_outcome-Beside :
    (o : Outside) (r : Request) (outcome : Outcome) (d : Desk)
    → Beside d (write_outcome o r outcome d)
write_outcome-Beside o r (launched w replay) d = record { platform = refl }
write_outcome-Beside o r (threw t) d = elim (Bool-cases o.fail_fault) [
  | inl lost_row ↦ rw lost_row (record { platform = refl })
  | inr kept ↦ rw kept (record { platform = refl })
]

-- An error is the outcome, whatever the update answers, and a workspace only where it does not throw.
pub completed_outcome-threw :
    (fault : Option Thrown) (t : Thrown) → completed_outcome fault (threw t) ≡ threw t
completed_outcome-threw none t = refl
completed_outcome-threw (some u) t = refl

pub completed_outcome-launched :
    (fault : Option Thrown) (outcome : Outcome) (w : ℕ)
    → completed_outcome fault outcome ≡ launched w false
    → outcome ≡ launched w false
completed_outcome-launched none outcome w e = e
completed_outcome-launched (some t) (launched v replay) w e = cc
completed_outcome-launched (some t) (threw u) w e = cc
