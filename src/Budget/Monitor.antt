-- ===== src/Budget/Monitor.antt =====
-- `budgetMonitorTick` of worker/src/jobs/budget-monitor.ts. An owner's e-mail address is not empty.
use final_aldaro.Common.{
  ℕ, ◌+◌, ◌-◌, ◌*◌, Bool, true, false, not, Option, none, some, List, [], ◌∷◌, ◌==◌, ◌&&◌,
  if◌then◌else◌, ltb, leb, String, ceil_div, any, length, find_first, find_many, update_many,
}
use final_aldaro.Billing.Rows.{UsageSession, running, ended}
use final_aldaro.Cleanup.Rows.{
  Workspace, WorkspaceStatus, Platform, creating, waiting_for_agent, verifying, warm_available,
  assigning, running_assigned, terminating, terminated, failed, workspace_with_id,
}
use final_aldaro.Cleanup.Batch.{enqueue_cleanup}
use final_aldaro.Budget.Rows.{
  Account, Membership, BudgetAlert, Notice, BudgetWorld, Tick, account_with_id,
}
use final_aldaro.Budget.Notices.{
  percent, threshold, note_alert, stop_alert, warn_alert, notify_webhooks, add_notice,
}

-- What a session has cost so far.
unfoldable pub session_cents : ℕ → UsageSession → ℕ
session_cents now s = elim s.status [
  | ended ↦ s.billed_cents
  | running ↦ ceil_div ((now - s.start_time) * s.price_per_hour_cents) 3_600_000
]

unfoldable pub spend_of : ℕ → List UsageSession → ℕ
spend_of now [] = 0
spend_of now (s ∷ ss) = session_cents now s + spend_of now ss

abbrev pub recently_cooled : ℕ → Option ℕ → Bool
recently_cooled now none = false
recently_cooled now (some last) = ltb (now - last) 14_400_000

-- `['RUNNING_ASSIGNED', 'CREATING', 'WAITING_FOR_AGENT', 'ASSIGNING']`
abbrev pub is_stoppable : WorkspaceStatus → Bool
is_stoppable creating = true
is_stoppable waiting_for_agent = true
is_stoppable verifying = false
is_stoppable warm_available = false
is_stoppable assigning = true
is_stoppable running_assigned = true
is_stoppable terminating = false
is_stoppable terminated = false
is_stoppable failed = false

abbrev pub stop_row : ℕ → Workspace → Workspace
stop_row now ws = record ws {
  status = terminating;
  termination_reason = some "budget_limit";
  cleanup_next_retry_at = some now;
  updated_at = now;
}

abbrev pub stop_workspace : Tick → String → Workspace → Platform → Platform
stop_workspace t reason ws p =
    enqueue_cleanup t.job_id_for reason t.now ws.id (record p {
      workspaces = update_many (workspace_with_id ws.id) (stop_row t.now) p.workspaces;
    })

unfoldable pub stop_each : Tick → String → List Workspace → Platform → Platform
stop_each t reason [] p = p
stop_each t reason (ws ∷ wss) p = stop_each t reason wss (stop_workspace t reason ws p)

abbrev pub fleet : (Workspace → Bool) → Platform → List Workspace
fleet owned p = find_many (λ ws. owned ws && is_stoppable ws.status) p.workspaces

unfoldable pub stop_fleet : Tick → String → (Workspace → Bool) → Platform → Platform
stop_fleet t reason owned p = stop_each t reason (fleet owned p) p

pub data Verdict : Type 0 where
  terminate warn nothing : Verdict

unfoldable pub verdict : ℕ → Account → (spend limit : ℕ) → Verdict
verdict now a spend limit =
    if leb 100 (percent spend limit) && a.auto_terminate
    then terminate
    else if leb 90 (percent spend limit) && not (recently_cooled now a.last_budget_alert_at)
    then warn
    else nothing

-- The warning of `user`, by webhook and e-mail.
abbrev pub warn_user : Tick → (user : ℕ) → (spend limit : ℕ) → Notice → BudgetWorld → BudgetWorld
warn_user t user spend limit notice w = record w {
  alerts = warn_alert user spend limit ∷ w.alerts;
  switchboard = notify_webhooks t user w.switchboard;
  notices = add_notice notice w.notices;
}

abbrev pub note_user : ℕ → ℕ → BudgetWorld → BudgetWorld
note_user now user w = record w {
  users = update_many (account_with_id user) (note_alert now) w.users;
}

abbrev pub note_org : ℕ → ℕ → BudgetWorld → BudgetWorld
note_org now org w = record w { orgs = update_many (account_with_id org) (note_alert now) w.orgs }

abbrev pub owned_by_user : ℕ → Workspace → Bool
owned_by_user user ws = elim ws.assigned_user_id [ none ↦ false | some u ↦ u == user ]

abbrev pub owned_by_org : ℕ → Workspace → Bool
owned_by_org org ws = elim ws.org_id [ none ↦ false | some o ↦ o == org ]

-- Month-to-date spend of a user, and of the workspaces of an organization.
unfoldable pub user_spend : Tick → ℕ → Platform → ℕ
user_spend t user p =
    spend_of t.now
      (find_many (λ s. s.user_id == user && leb t.month_start s.start_time) p.ledger.sessions)

unfoldable pub org_spend : Tick → ℕ → Platform → ℕ
org_spend t org p = spend_of t.now (
    find_many
      (λ s.
        leb t.month_start s.start_time
        && any (λ ws. ws.id == s.workspace_id && owned_by_org org ws) p.workspaces)
      p.ledger.sessions)

unfoldable pub stop_user : Tick → (user spend limit : ℕ) → BudgetWorld → BudgetWorld
stop_user t user spend limit w = elim (fleet (owned_by_user user) w.platform) [
  | [] ↦ w
  | ws ∷ wss ↦ note_user t.now user (record w {
    platform = stop_fleet t "budget_limit" (owned_by_user user) w.platform;
    alerts = stop_alert user spend limit (length (ws ∷ wss)) ∷ w.alerts;
  })
]

abbrev pub user_notice : Tick → (user spend limit : ℕ) → Notice
user_notice t user spend limit = record {
  of_org = false;
  account_id = user;
  month = t.month;
  threshold_pct = threshold spend limit;
}

unfoldable pub check_user_budget : Tick → Account → (limit : ℕ) → BudgetWorld → BudgetWorld
check_user_budget t a limit w =
    let spend = user_spend t a.id w.platform in
    elim (verdict t.now a spend limit) [
      | terminate ↦ stop_user t a.id spend limit w
      | warn ↦
          note_user t.now a.id (warn_user t a.id spend limit (user_notice t a.id spend limit) w)
      | nothing ↦ w
    ]

abbrev pub owner_of : ℕ → List Membership → Option Membership
owner_of org ms = find_first (λ m. m.org_id == org && (m.is_owner && m.is_active_member)) ms

abbrev pub member_of : ℕ → List Membership → Option Membership
member_of org ms = find_first (λ m. m.org_id == org && m.is_active_member) ms

-- `ownerMembership?.userId || memberUserIds[0]`
abbrev pub alert_user : ℕ → List Membership → Option ℕ
alert_user org ms = elim (owner_of org ms) [
  | some m ↦ some m.user_id
  | none ↦ elim (member_of org ms) [ none ↦ none | some m ↦ some m.user_id ]
]

abbrev pub alert_stop : Option ℕ → (spend limit count : ℕ) → List BudgetAlert → List BudgetAlert
alert_stop none spend limit count alerts = alerts
alert_stop (some user) spend limit count alerts = stop_alert user spend limit count ∷ alerts

unfoldable pub stop_org : Tick → (org spend limit : ℕ) → BudgetWorld → BudgetWorld
stop_org t org spend limit w = elim (fleet (owned_by_org org) w.platform) [
  | [] ↦ w
  | ws ∷ wss ↦ note_org t.now org (record w {
    platform = stop_fleet t "org_budget_limit" (owned_by_org org) w.platform;
    alerts = alert_stop (alert_user org w.memberships) spend limit (length (ws ∷ wss)) w.alerts;
  })
]

abbrev pub org_notice : Tick → (org spend limit : ℕ) → Notice
org_notice t org spend limit = record {
  of_org = true;
  account_id = org;
  month = t.month;
  threshold_pct = threshold spend limit;
}

abbrev pub warn_org : Tick → (org spend limit : ℕ) → BudgetWorld → BudgetWorld
warn_org t org spend limit w = elim (owner_of org w.memberships) [
  | none ↦ w
  | some m ↦ warn_user t m.user_id spend limit (org_notice t org spend limit) w
]

unfoldable pub check_org_budget : Tick → Account → (limit : ℕ) → BudgetWorld → BudgetWorld
check_org_budget t a limit w =
    let spend = org_spend t a.id w.platform in
    elim (verdict t.now a spend limit) [
      | terminate ↦ stop_org t a.id spend limit w
      | warn ↦ note_org t.now a.id (warn_org t a.id spend limit w)
      | nothing ↦ w
    ]

-- An account without a limit, or with the limit 0, is passed over.
unfoldable pub check_each :
    (Account → ℕ → BudgetWorld → BudgetWorld) → List Account → BudgetWorld → BudgetWorld
check_each check [] w = w
check_each check (a ∷ as_read) w = elim a.monthly_soft_limit_cents [
  | none ↦ check_each check as_read w
  | some limit ↦
      let checked = if ltb 0 limit then check a limit w else w in check_each check as_read checked
]

unfoldable pub budget_monitor_tick : Tick → BudgetWorld → BudgetWorld
budget_monitor_tick t w =
    let users_done = check_each (check_user_budget t) w.users w in
    check_each (check_org_budget t) users_done.orgs users_done
