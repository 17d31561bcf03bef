-- ===== src/Launch/Tests.antt =====
-- Launches and terminations at concrete tables.
use final_aldaro.Common.{◌≡◌, ◌≤◌, refl, true, false, none, some, [], ◌∷◌}
use final_aldaro.Billing.Catalog.{resolve_price}
use final_aldaro.Billing.Close.{Surroundings}
use final_aldaro.Billing.Ledger.{IsLedger}
use final_aldaro.Billing.Start.{create_session, new_session}
use final_aldaro.Budget.Monitor.{spend_of}
use final_aldaro.Cleanup.Rows.{Workspace, Platform, blank_workspace, warm_available}
use final_aldaro.Gateway.Leases.{allocate, allocate_new, draw_port, persist_lease}
use final_aldaro.Launch.Image.{parse_image}
use final_aldaro.Launch.Named.{parse_image-append}
use final_aldaro.Launch.Assign.{
  find_warm_workspace, assign_warm_workspace, and_then, go_on, claim, allocate_gateway_ports,
  after_call, take_reply, write_ports, start_usage_session_with_status, open_session,
}
use final_aldaro.Launch.Rows.{User, Desk, Request, Outside, answered, lost, error}
use final_aldaro.Launch.Service.{
  launch, launch_workspace_internal, provide, first_launch, create_and_launch, settle_operation,
  refusal_of, admit_user, compute_user_mtd_spend_cents, active_count,
}
use final_aldaro.Launch.Replay.{again, launch-again}
use final_aldaro.Launch.Quota.{IsAdmitted, launch-IsAdmitted}
use final_aldaro.Launch.Stranded.{IsStranded, launch-IsStranded}
use final_aldaro.Launch.Terminate.{terminate}
use final_aldaro.Launch.Ended.{IsEnding, terminate-IsEnding}
use final_aldaro.Runs.Stages.{best_scored}

-- `a:b`
parse_image-append_example :
    parse_image (some (97 ∷ 58 ∷ 98 ∷ [])) ≡ some (record { repo = 97 ∷ []; tag = 98 ∷ [] })
parse_image-append_example = parse_image-append 97 [] (98 ∷ []) refl refl

abbrev warm : Workspace
warm = record (blank_workspace 7 1 1 warm_available 0) {
  is_warm_pool = true;
  verified = true;
  vm_internal_ip = some 9;
  proxmox_vmid = some 100;
}

abbrev fleet : Platform
fleet = record {
  workspaces = warm ∷ [];
  jobs = [];
  gpus = [];
  allocations = [];
  incidents = [];
  ledger = record { sessions = []; outbox = [] };
  gateway = record { endpoints = []; active_allocations = []; allocated_ports = [] };
}

abbrev user : User
user = record {
  id = 5;
  payment_valid = true;
  monthly_soft_limit_cents = some 1000;
  auto_terminate = true;
  max_active_workspaces = 1;
}

abbrev desk : Desk
desk = record {
  users = user ∷ [];
  operations = [];
  platform = fleet;
  catalog = record {
    configs = [];
    skus =
        record {
          key = 1;
          price_per_hour_cents = 199;
          spot_price_cents = none;
          spot_multiplier = 100;
        }
        ∷ [];
  };
}

abbrev request : Request
request = record {
  user_id = 5;
  gpu_type = 1;
  region = 1;
  operation_key = 11;
  request_hash = 12;
  max_duration_minutes = none;
  custom_image = none;
  registry_credential_id = none;
}

-- Alone at the desk, and the gateway answers.
abbrev quiet : Outside
quiet = record {
  now = 3_600_000;
  month_start = 0;
  workspace_id = 8;
  session_id = 1;
  event_id = 1;
  require_payment = true;
  gateway = record { random = λ i. i; now = 0; fault = false };
  call = answered;
  refusal = error "Request failed with status code 500";
  before_create = λ d. d;
  polls = [];
  before_assign = λ d. d;
  complete_fault = none;
  fail_fault = false;
}

abbrev down : Outside
down = record quiet { call = lost false (error "connect ECONNREFUSED") }

launch-again_example :
    launch quiet request (launch down request desk).0
    ≡ ((launch down request desk).0, again (launch down request desk).1)
launch-again_example =
    launch-again down quiet request request desk (record { user = refl; key = refl; hash = refl })
      (λ d. refl) refl refl refl

launch-IsAdmitted_example :
    IsAdmitted quiet desk user × (active_count 5 (launch quiet request desk).0 ≤ 1)
unfolding launch create_and_launch first_launch settle_operation launch_workspace_internal
    refusal_of admit_user compute_user_mtd_spend_cents spend_of provide find_warm_workspace
    best_scored assign_warm_workspace and_then go_on claim allocate_gateway_ports after_call
    take_reply write_ports start_usage_session_with_status resolve_price open_session create_session
    new_session allocate allocate_new draw_port persist_lease
launch-IsAdmitted_example =
    launch-IsAdmitted quiet request desk user 7 (λ d. refl) refl refl (tt, tt) refl refl

launch-IsStranded_example :
    IsStranded request 3_600_000 warm (error "connect ECONNREFUSED") desk (launch down request desk)
unfolding refusal_of admit_user compute_user_mtd_spend_cents spend_of find_warm_workspace
    best_scored
launch-IsStranded_example =
    launch-IsStranded down request desk warm false (error "connect ECONNREFUSED") (λ d. refl) refl
      refl refl refl refl refl refl

abbrev held : Workspace
held = record warm { assigned_user_id = some 5 }

abbrev held_fleet : Platform
held_fleet = record fleet { workspaces = held ∷ [] }

abbrev calm : Surroundings
calm = record { clock = λ s. 0; event_id = λ s. 1; fault = λ s. none }

no_sessions-IsLedger : IsLedger held_fleet.ledger
no_sessions-IsLedger = record { ids = tt; events = tt; accounted = tt; one_running = tt }

terminate-IsEnding_example :
    IsEnding 50 held (terminate calm 3 50 7 5 held_fleet).0 (terminate calm 3 50 7 5 held_fleet).1
terminate-IsEnding_example =
    terminate-IsEnding calm 3 50 7 5 held held_fleet refl refl refl (λ s. refl) no_sessions-IsLedger
