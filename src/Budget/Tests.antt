-- ===== src/Budget/Tests.antt =====
-- Budgets and idle workspaces at concrete tables.
use final_aldaro.Common.{◌+◌, ◌*◌, ◌≤◌, ◌≡◌, ◌↔◌, refl, true, none, some, [], ◌∷◌, arith}
use final_aldaro.Billing.Rows.{UsageSession, running}
use final_aldaro.Cleanup.Rows.{Workspace, Platform, blank_workspace, running_assigned}
use final_aldaro.Budget.Rows.{Account, BudgetWorld, Tick}
use final_aldaro.Budget.Monitor.{
  verdict, terminate, fleet, owned_by_user, user_spend, spend_of, session_cents, check_user_budget,
}
use final_aldaro.Budget.Threshold.{verdict-terminate}
use final_aldaro.Budget.Stopped.{IsStopped, check_user_budget-IsStopped}

abbrev account : Account
account = record {
  id = 5;
  monthly_soft_limit_cents = some 200;
  auto_terminate = true;
  last_budget_alert_at = none;
}

-- An hour at 199 cents, still under way.
abbrev session : UsageSession
session = record {
  id = 1;
  user_id = 5;
  workspace_id = 7;
  gpu_type = 1;
  start_time = 0;
  end_time = none;
  total_seconds = 0;
  billed_seconds = 0;
  price_per_hour_cents = 199;
  billed_cents = 0;
  stripe_meter_event_id = none;
  status = running;
}

abbrev workspace : Workspace
workspace = record (blank_workspace 7 1 1 running_assigned 0) {
  assigned_user_id = some 5;
  assigned_at = some 0;
  last_agent_heartbeat_at = some 3_590_000;
  last_gpu_utilization_pct = some 80;
}

abbrev platform : Platform
platform = record {
  workspaces = workspace ∷ [];
  jobs = [];
  gpus = [];
  allocations = [];
  incidents = [];
  ledger = record { sessions = session ∷ []; outbox = [] };
  gateway = record { endpoints = []; active_allocations = []; allocated_ports = [] };
}

abbrev world : BudgetWorld
world = record {
  users = account ∷ [];
  orgs = [];
  memberships = [];
  alerts = [];
  notices = [];
  switchboard = record { endpoints = []; deliveries = []; requests = [] };
  platform = platform;
}

abbrev hour : Tick
hour = record {
  now = 3_600_000;
  month_start = 0;
  month = 1;
  job_id_for = λ w. w + 100;
  delivery_id_for = λ e. e + 200;
}

hour_cents : user_spend hour 5 platform ≡ 199
unfolding user_spend spend_of session_cents
hour_cents = refl

verdict-terminate_example :
    (verdict 3_600_000 account 199 200 ≡ terminate) ↔ ((true ≡ true) × (199 * 200 ≤ 200 * 199))
verdict-terminate_example = verdict-terminate 3_600_000 account 199 200 (omega arith)

check_user_budget-IsStopped_example :
    IsStopped 3_600_000
      (owned_by_user 5)
      (fleet (owned_by_user 5) platform)
      (check_user_budget hour account 200 world).platform
unfolding user_spend spend_of session_cents
check_user_budget-IsStopped_example =
    check_user_budget-IsStopped hour account 200 world (omega arith) refl (omega arith)
