-- ===== src/Runs/Tests.antt =====
-- Runs at concrete tables, and the theorems about runs applied to them.
use final_aldaro.Common.{
  ℕ, ◌+◌, ◌-◌, ◌*◌, ◌≤◌, ◌<◌, ◌≡◌, refl, true, Option, none, some, List, [], ◌∷◌, All,
  All-find_first, arith,
}
use final_aldaro.Cleanup.Rows.{Workspace, blank_workspace, running_assigned}
use final_aldaro.Runs.Rows.{
  Run, RunWorld, Outside, initializing, running, completed, timed_out, ok, status_event,
  heartbeat_event, find_run, run_with_id,
}
use final_aldaro.Runs.Requests.{
  User, RunRequest, active_runs, billed_since, new_run, create_run, is_well_formed, is_over_limit,
  insert_run, sum_billed, cancel_run, cancel_row, release_machine, deprovision,
}
use final_aldaro.Runs.Stages.{workspace_of, process_initializing_run}
use final_aldaro.Runs.Overwritten.{process_initializing_run-starts}
use final_aldaro.Runs.Events.{AgentToken, keep_event}
use final_aldaro.Runs.Monitor.{
  initialize, monitor, check_run_timeout, time_out_run, process_running_runs,
}
use final_aldaro.Runs.Book.{metered, IsSettled, IsBook, Forward}
use final_aldaro.Runs.Play.{
  Action, executor, report, create, cancel, play, IsCalmly, play-IsBook, play-Forward,
}
use final_aldaro.Runs.Turns.{IsCalm}
use final_aldaro.Runs.Overdue.{check_run_timeout_bill, process_running_runs_overdue}
use final_aldaro.Runs.Admission.{create_run_admitted}

abbrev user : User
user = record {
  id = 5;
  is_alpha_tester = true;
  max_concurrent_runs = 2;
  daily_spend_limit_seconds = 86_400;
}

abbrev request : RunRequest
request = record { project_id = 3; gpu_type = 1; gpu_count = 1; hours_max = 2 }

-- A run on the workspace 7, since time 0.
abbrev under_way : Run
under_way = record (new_run 1 5 0 request) {
  status = running;
  upstream_instance_id = some 7;
  infra_started_at = some 0;
  started_at = some 0;
}

-- A run of 30 seconds that Stripe has not heard of.
abbrev over : Run
over = record (new_run 2 5 0 request) { status = completed; billed_seconds = 30 }

abbrev world : RunWorld
world = record {
  runs = under_way ∷ over ∷ [];
  events = [];
  agent_sessions = record { id = 9; run_id = 1; last_heartbeat_at = some 0; created_at = 0 } ∷ [];
  projects = record { id = 3; user_id = 5 } ∷ [];
  meter = [];
  platform = record {
    workspaces = blank_workspace 7 1 1 running_assigned 0 ∷ [];
    jobs = [];
    gpus = [];
    allocations = [];
    incidents = [];
    ledger = record { sessions = []; outbox = [] };
    gateway = record { endpoints = []; active_allocations = []; allocated_ports = [] };
  };
}

abbrev outside : Outside
outside = record {
  workspace_id_for = λ r. r + 100;
  job_id_for = λ w. w + 200;
  refused = λ r. none;
  in_subnet = λ a. true;
  agent = λ r. ok;
  customer_of = λ u. some 8;
  takes_meter = λ r. true;
  marks_reported = λ r. true;
  meanwhile = λ r w. w;
}

-- Two hours and half a second.
abbrev late : ℕ
late = 7_200_500

world-IsBook : IsBook world.runs world.meter
unfolding metered
world-IsBook = record {
  distinct = ground arith;
  settled =
      λ r found. All-find_first (IsSettled []) (run_with_id r.id) world.runs r (all_settled) found;
  known = λ id gone. refl;
}
  where
    all_settled : All (IsSettled []) world.runs
    all_settled = (
      record {
        due = λ e. absurd (ground arith);
        final = λ e. absurd (ground arith);
        sent = tt;
        taken = λ e. absurd (ground arith);
        unsent = λ e. refl;
      },
      (
        record {
          due = λ e. refl;
          final = λ e. absurd (ground arith);
          sent = tt;
          taken = λ e. absurd (ground arith);
          unsent = λ e. refl;
        },
        tt,
      ),
    )

-- A heartbeat comes in while the agent is called.
abbrev beating : Outside
beating = record outside { meanwhile = λ r w. keep_event 35 r 9 heartbeat_event w }

beating-IsCalm : IsCalm beating
unfolding keep_event
beating-IsCalm = record { runs = λ id w. refl; meter = λ id w. refl }

abbrev actions : List Action
actions =
    create (λ g. true) 4 10 0 5 (some user) request
    ∷ report outside 20 1 (some (record { run_id = 1; agent_session_id = 9 }))
        (status_event (some completed))
    ∷ executor initialize beating 36
    ∷ executor monitor beating late
    ∷ cancel 4 5 late
    ∷ []

actions_calm : All IsCalmly actions
actions_calm = (tt, (tt, (beating-IsCalm, (beating-IsCalm, (tt, tt)))))

play-IsBook_example : IsBook (play actions world).runs (play actions world).meter
play-IsBook_example = play-IsBook actions world actions_calm world-IsBook

play-Forward_example : Forward world.runs (play actions world).runs
play-Forward_example = play-Forward actions world actions_calm world-IsBook

-- The bill of a run that is timed out.
check_run_timeout_bill_example :
    (s : Run) × (find_run 1 (time_out_run outside late under_way world) ≡ some s)
    × (s.status ≡ timed_out)
    × (2 * 3600 ≤ s.billed_seconds)
    × (late - 0 ≤ s.billed_seconds * 1000)
    × (s.billed_seconds * 1000 < late - 0 + 1000)
unfolding check_run_timeout
check_run_timeout_bill_example =
    check_run_timeout_bill outside late 0 under_way world
      (time_out_run outside late under_way world) refl refl refl

process_running_runs_overdue_example :
    (s : Run) × (find_run 1 (process_running_runs outside late world) ≡ some s)
    × (s.status ≡ timed_out)
process_running_runs_overdue_example =
    process_running_runs_overdue outside late world under_way world-IsBook (omega arith) refl refl
      refl

create_run_admitted_example :
    (active_runs 5 world < 2)
    × (billed_since 5 0 world < 86_400)
    × (true ≡ true)
    × (true ≡ true)
    × (2 ≤ 24)
    × (find_run 4 world ≡ none)
    × ((create_run (λ g. true) 4 10 0 5 (some user) request world).0.runs
        ≡ new_run 4 5 10 request ∷ world.runs)
unfolding create_run is_well_formed is_over_limit insert_run active_runs billed_since sum_billed
create_run_admitted_example = create_run_admitted (λ g. true) 4 10 0 5 user request world refl

abbrev back_to_queue : Option AgentToken
back_to_queue = some (record { run_id = 1; agent_session_id = 9 })

-- The user cancels while the agent is called.
abbrev canceling : Outside
canceling = record outside { meanwhile = λ r w. (cancel_run r 5 40 w).0 }

abbrev booting : Run
booting = record (new_run 1 5 0 request) {
  status = initializing;
  upstream_instance_id = some 7;
  infra_started_at = some 0;
}

abbrev machine : Workspace
machine = record (blank_workspace 7 1 1 running_assigned 0) { vm_internal_ip = some 70 }

abbrev booting_world : RunWorld
booting_world = record world {
  runs = booting ∷ [];
  platform = record world.platform { workspaces = machine ∷ [] };
}

-- The run was canceled, and it is running.
process_initializing_run-starts_example :
    (t : Run) × (find_run 1 (process_initializing_run canceling 41 booting booting_world) ≡ some t)
    × (t.status ≡ running)
    × (t.infra_finished_at ≡ some 40)
    × (t.billed_seconds ≡ 0)
unfolding workspace_of cancel_run release_machine deprovision
process_initializing_run-starts_example =
    process_initializing_run-starts canceling 41 70 booting (cancel_row 40 booting) machine
      booting_world refl refl refl refl refl refl refl
