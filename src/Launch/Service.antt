-- ===== src/Launch/Service.antt =====
-- Launching under an idempotency key: `launch`, `waitForOperationWorkspace`, `launchWorkspaceInternal` and
-- `computeUserMtdSpendCents` of apps/api/src/services/workspaceService.ts. The row of an operation names the
-- workspace that it made by a foreign key, so a key that is set is a workspace that is there.
use final_aldaro.Common.{
  ℕ, String, Bool, true, false, not, if◌then◌else◌, Option, none, some, List, [], ◌∷◌, ◌++◌, ◌==◌,
  ◌&&◌, or_else, ltb, leb, find_first, find_many, update_many, count,
}
use final_aldaro.Budget.Monitor.{spend_of, owned_by_user}
use final_aldaro.Cleanup.Rows.{
  Workspace, WorkspaceStatus, creating, waiting_for_agent, verifying, warm_available, assigning,
  running_assigned, terminating, terminated, failed,
}
use final_aldaro.Launch.Rows.{
  User, LaunchOperation, OperationStatus, processing, completed, is_failed, Desk, Request, Outside,
  Thrown, error, operation_of, user_with_id,
}
use final_aldaro.Launch.Assign.{find_warm_workspace, assign_warm_workspace, create_cold_workspace}

-- `ACTIVE_WORKSPACE_STATUSES`
abbrev pub is_active : WorkspaceStatus → Bool
is_active creating = true
is_active waiting_for_agent = true
is_active verifying = true
is_active warm_available = false
is_active assigning = true
is_active running_assigned = true
is_active terminating = false
is_active terminated = false
is_active failed = false

abbrev pub is_active_of : ℕ → Workspace → Bool
is_active_of user ws = owned_by_user user ws && is_active ws.status

abbrev pub active_count : ℕ → Desk → ℕ
active_count user d = count (is_active_of user) d.platform.workspaces

unfoldable pub compute_user_mtd_spend_cents : Outside → ℕ → Desk → ℕ
compute_user_mtd_spend_cents o user d = spend_of o.now (
    find_many (λ s. s.user_id == user && leb o.month_start s.start_time) d.platform.ledger.sessions)

-- A limit of 0 is no limit, and neither is one that only warns.
abbrev pub hard_limit : User → Option ℕ
hard_limit u =
    if ltb 0 (or_else u.monthly_soft_limit_cents 0) && u.auto_terminate
    then u.monthly_soft_limit_cents
    else none

abbrev pub is_over : Option ℕ → ℕ → Bool
is_over none spend = false
is_over (some limit) spend = leb limit spend

unfoldable pub admit_user : Outside → Desk → User → Option Thrown
admit_user o d u =
    if o.require_payment && not u.payment_valid
    then some (error "PAYMENT_METHOD_REQUIRED")
    else if is_over (hard_limit u) (compute_user_mtd_spend_cents o u.id d)
    then some (error "BUDGET_LIMIT_EXCEEDED")
    else if leb u.max_active_workspaces (active_count u.id d)
    then some (error "MAX_WORKSPACES_REACHED")
    else none

-- The checks before a launch: what they throw.
unfoldable pub refusal_of : Outside → ℕ → Desk → Option Thrown
unfolding admit_user
refusal_of o user d = elim (find_first (user_with_id user) d.users) [
  | none ↦ some (error "USER_NOT_FOUND")
  | some u ↦ admit_user o d u
]

pub data Outcome : Type 0 where
  launched : (workspace : ℕ) (replay : Bool) → Outcome
  threw : Thrown → Outcome

-- A row that was made or assigned.
abbrev pub outcome_of : ℕ → Desk × Option Thrown → Desk × Outcome
outcome_of w (d, none) = (d, launched w false)
outcome_of w (d, some t) = (d, threw t)

-- A warm workspace is looked for first; what other requests write comes after that.
unfoldable pub provide : Outside → Request → Desk → Desk × Outcome
provide o r d = elim (find_warm_workspace r d) [
  | none ↦ (create_cold_workspace o r d, launched o.workspace_id false)
  | some ws ↦ outcome_of ws.id (assign_warm_workspace o r ws (o.before_assign d))
]

unfoldable pub launch_workspace_internal : Outside → Request → Desk → Desk × Outcome
unfolding refusal_of provide
launch_workspace_internal o r d = elim (refusal_of o r.user_id d) [
  | some t ↦ (d, threw t)
  | none ↦ provide o r d
]

abbrev pub complete_row : ℕ → LaunchOperation → LaunchOperation
complete_row w op = record op {
  workspace_id = some w;
  status = completed;
  last_error_code = none;
  last_error_message = none;
}

-- `err?.code || err?.message || 'LAUNCH_FAILED'`
abbrev pub code_or_message : Thrown → String
code_or_message t = or_else t.code (or_else t.message "LAUNCH_FAILED")

abbrev pub fail_row : Thrown → LaunchOperation → LaunchOperation
fail_row t op = record op {
  status = OperationStatus.failed;
  last_error_code = some (code_or_message t);
  last_error_message = some (or_else t.message "Launch failed");
}

abbrev pub settle_row : Outcome → LaunchOperation → LaunchOperation
settle_row (launched w replay) = complete_row w
settle_row (threw t) = fail_row t

abbrev pub on_operation : Request → (LaunchOperation → LaunchOperation) → Desk → Desk
on_operation r change d = record d {
  operations = update_many (operation_of r.user_id r.operation_key) change d.operations;
}

-- The end of the `try` block: an update that throws makes the launch fail.
abbrev pub completed_outcome : Option Thrown → Outcome → Outcome
completed_outcome none outcome = outcome
completed_outcome (some t) (launched w replay) = threw t
completed_outcome (some t) (threw t') = threw t'

-- Of the update in the `catch` clause, an error is swallowed.
abbrev pub write_outcome : Outside → Request → Outcome → Desk → Desk
write_outcome o r (launched w replay) d = on_operation r (complete_row w) d
write_outcome o r (threw t) d = if o.fail_fault then d else on_operation r (fail_row t) d

-- The operation's row is settled, and the outcome goes to the caller.
unfoldable pub settle_operation : Outside → Request → Desk × Outcome → Desk × Outcome
settle_operation o r (d, made) =
    let outcome = completed_outcome o.complete_fault made in (write_outcome o r outcome d, outcome)

abbrev pub failure_of : LaunchOperation → Thrown
failure_of op = error (or_else op.last_error_code "LAUNCH_OPERATION_FAILED")

-- One poll: the workspace, or the error of a launch that has failed.
unfoldable pub seen_outcome : Option LaunchOperation → Option Outcome
seen_outcome none = none
seen_outcome (some op) = elim op.workspace_id [
  | some w ↦ some (launched w true)
  | none ↦ if is_failed op.status then some (threw (failure_of op)) else none
]

abbrev pub operation_at : Request → Desk → Option LaunchOperation
operation_at r d = find_first (operation_of r.user_id r.operation_key) d.operations

-- Polling until the outcome is known; after the last poll the time is up.
unfoldable pub wait_for_operation_workspace : Request → List (Desk → Desk) → Desk → Desk × Outcome
unfolding seen_outcome
wait_for_operation_workspace r [] d = (d, threw (error "OPERATION_IN_PROGRESS"))
wait_for_operation_workspace r (others ∷ polls) d =
    let later = wait_for_operation_workspace r polls (others d) in
    elim (seen_outcome (operation_at r (others d))) [
      | none ↦ later
      | some outcome ↦ (others d, outcome)
    ]

abbrev pub reused_key : Outcome
reused_key = threw (error "IDEMPOTENCY_KEY_REUSED_WITH_DIFFERENT_REQUEST")

-- The key has a row already.
unfoldable pub answer_existing : Outside → Request → LaunchOperation → Desk → Desk × Outcome
unfolding seen_outcome
answer_existing o r op d =
    let wait = wait_for_operation_workspace r o.polls d in
    if not (op.request_hash == r.request_hash)
    then (d, reused_key)
    else elim (seen_outcome (some op)) [ some outcome ↦ (d, outcome) | none ↦ wait ]

-- The row appeared while this request was about to create it: here a launch that has failed is found
-- by the first poll.
unfoldable pub answer_conflict : Outside → Request → LaunchOperation → Desk → Desk × Outcome
answer_conflict o r op d =
    let wait = wait_for_operation_workspace r o.polls d in
    if not (op.request_hash == r.request_hash)
    then (d, reused_key)
    else elim op.workspace_id [ some w ↦ (d, launched w true) | none ↦ wait ]

abbrev pub new_operation : Request → LaunchOperation
new_operation r = record {
  user_id = r.user_id;
  operation_key = r.operation_key;
  request_hash = r.request_hash;
  workspace_id = none;
  status = processing;
  last_error_code = none;
  last_error_message = none;
}

abbrev pub with_operation : Request → Desk → Desk
with_operation r d = record d { operations = d.operations ++ new_operation r ∷ [] }

unfoldable pub first_launch : Outside → Request → Desk → Desk × Outcome
unfolding settle_operation launch_workspace_internal
first_launch o r d = settle_operation o r (launch_workspace_internal o r (with_operation r d))

-- `create` under the unique index on users and keys.
unfoldable pub create_and_launch : Outside → Request → Desk → Desk × Outcome
unfolding first_launch answer_conflict
create_and_launch o r d = elim (operation_at r d) [
  | none ↦ first_launch o r d
  | some op ↦ answer_conflict o r op d
]

unfoldable pub launch : Outside → Request → Desk → Desk × Outcome
unfolding answer_existing create_and_launch
launch o r d = elim (operation_at r d) [
  | some op ↦ answer_existing o r op d
  | none ↦ create_and_launch o r (o.before_create d)
]
