-- ===== src/Launch/Stranded.antt =====
-- A launch whose call of the gateway fails.
use final_aldaro.Common.{
  ℕ, ◌≡◌, refl, ap, ◌∙◌, Bool, true, false, none, some, find_first, update_many,
  find_first-update_many,
}
use final_aldaro.Cleanup.Rows.{Workspace, workspace_with_id}
use final_aldaro.Launch.Assign.{
  claim, claim_row, after_call, allocate_gateway_ports, go_on, and_then, assign_warm_workspace,
  find_warm_workspace,
}
use final_aldaro.Launch.Quota.{IsAlone}
use final_aldaro.Launch.Replay.{launch-fresh}
use final_aldaro.Launch.Untouched.{write_outcome-Beside, completed_outcome-threw}
use final_aldaro.Launch.Rows.{Desk, Request, Outside, Thrown, lost}
use final_aldaro.Launch.Service.{
  Outcome, threw, refusal_of, outcome_of, provide, launch_workspace_internal, first_launch,
  settle_operation, completed_outcome, with_operation, operation_at, launch,
}

-- The workspace is claimed, nothing is billed, and the error goes on.
pub record IsStranded (r : Request) (now : ℕ) (ws : Workspace) (t : Thrown) (d : Desk)
    (x : Desk × Outcome) : Type 0 where
  pub thrown : x.1 ≡ threw t
  pub claimed :
      find_first (workspace_with_id ws.id) x.0.platform.workspaces ≡ some (claim_row r now ws)
  pub unbilled : x.0.platform.ledger ≡ d.platform.ledger

claimed_row :
    (r : Request) (now : ℕ) (ws : Workspace) (d : Desk)
    → find_first (workspace_with_id ws.id) d.platform.workspaces ≡ some ws
    → find_first
        (workspace_with_id ws.id)
        (update_many (workspace_with_id ws.id) (claim_row r now) d.platform.workspaces)
      ≡ some (claim_row r now ws)
claimed_row r now ws d found =
    find_first-update_many (workspace_with_id ws.id) (claim_row r now) d.platform.workspaces ws
      (λ x. refl) found

assign-IsStranded :
    (o : Outside) (r : Request) (ws : Workspace) (d : Desk) (served : Bool) (t : Thrown)
    → find_first (workspace_with_id ws.id) d.platform.workspaces ≡ some ws
    → ws.assigned_user_id ≡ none
    → o.call ≡ lost served t
    → IsStranded r o.now ws t d (outcome_of ws.id (assign_warm_workspace o r ws d))
unfolding assign_warm_workspace claim and_then go_on allocate_gateway_ports after_call
assign-IsStranded o r ws d true t found unassigned failing = rw found (
    rw unassigned (
      rw failing
        (record { thrown = refl; claimed = claimed_row r o.now ws d found; unbilled = refl })))
assign-IsStranded o r ws d false t found unassigned failing = rw found (
    rw unassigned (
      rw failing
        (record { thrown = refl; claimed = claimed_row r o.now ws d found; unbilled = refl })))

assigns :
    (o : Outside) (r : Request) (e : Desk) (ws : Workspace)
    → IsAlone o
    → refusal_of o r.user_id e ≡ none
    → find_warm_workspace r e ≡ some ws
    → launch_workspace_internal o r e ≡ outcome_of ws.id (assign_warm_workspace o r ws e)
unfolding launch_workspace_internal provide
assigns o r e ws alone free warm =
    rw (free, launch_workspace_internal) (rw (warm, provide) (rw (alone e) refl))

-- Settling the operation's row touches neither workspaces nor the ledger.
settle_operation-IsStranded :
    (o : Outside) (r : Request) (now : ℕ) (ws : Workspace) (t : Thrown) (d : Desk)
    (x : Desk × Outcome)
    → IsStranded r now ws t d x
    → IsStranded r now ws t d (settle_operation o r x)
unfolding settle_operation
settle_operation-IsStranded o r now ws t d x s =
    let same = write_outcome-Beside o r (completed_outcome o.complete_fault x.1) x.0 in
    record {
      thrown =
          ap (completed_outcome o.complete_fault) s.thrown
          ∙ completed_outcome-threw o.complete_fault t;
      claimed = rw same.platform s.claimed;
      unbilled = rw same.platform s.unbilled;
    }

-- Where a launch is admitted, finds an unassigned warm workspace, and the call of the gateway
-- fails, the launch throws that error with the workspace left claimed by the user in status
-- ASSIGNING and no session opened.
pub launch-IsStranded :
    (o : Outside) (r : Request) (d : Desk) (ws : Workspace) (served : Bool) (t : Thrown)
    → IsAlone o
    → operation_at r d ≡ none
    → operation_at r (o.before_create d) ≡ none
    → refusal_of o r.user_id (with_operation r (o.before_create d)) ≡ none
    → find_warm_workspace r (with_operation r (o.before_create d)) ≡ some ws
    → find_first (workspace_with_id ws.id) (o.before_create d).platform.workspaces ≡ some ws
    → ws.assigned_user_id ≡ none
    → o.call ≡ lost served t
    → IsStranded r o.now ws t (o.before_create d) (launch o r d)
unfolding first_launch
launch-IsStranded o r d ws served t alone fresh still free warm found unassigned failing =
    let e = with_operation r (o.before_create d) in
    let s = assign-IsStranded o r ws e served t found unassigned failing in
    rw (launch-fresh o r d fresh still) (
      rw (assigns o r e ws alone free warm) (
        settle_operation-IsStranded o r o.now ws t (o.before_create d)
          (outcome_of ws.id (assign_warm_workspace o r ws e))
          (record { thrown = s.thrown; claimed = s.claimed; unbilled = s.unbilled })))
