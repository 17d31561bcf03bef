-- ===== src/Runs/Rows.antt =====
-- The tables of training runs (packages/db/prisma/schema.prisma, `Run`, `RunEvent`, `AgentSession`), and
-- what the executor meets outside: the agent, Stripe and the ids that the database makes. Ids,
-- users, customers and GPU types are opaque numbers; times are milliseconds.
use final_aldaro.Common.{
  ℕ, String, Bool, true, false, Option, List, ◌==◌, update_many, find_first, [], ◌∷◌,
}
use final_aldaro.Billing.Rows.{ErrorCode}
use final_aldaro.Cleanup.Rows.{Platform}

pub data RunStatus : Type 0 where
  queued provisioning initializing running uploading_artifacts completed failed canceled timed_out :
      RunStatus

-- `['completed', 'failed', 'canceled', 'timed_out'].includes(status)`
abbrev pub is_finished : RunStatus → Bool
is_finished queued = false
is_finished provisioning = false
is_finished initializing = false
is_finished running = false
is_finished uploading_artifacts = false
is_finished completed = true
is_finished failed = true
is_finished canceled = true
is_finished timed_out = true

-- `['provisioning', 'initializing', 'running', 'uploading_artifacts']`
abbrev pub is_active : RunStatus → Bool
is_active queued = false
is_active provisioning = true
is_active initializing = true
is_active running = true
is_active uploading_artifacts = true
is_active completed = false
is_active failed = false
is_active canceled = false
is_active timed_out = false

abbrev pub rank : RunStatus → ℕ
rank queued = 0
rank provisioning = 1
rank initializing = 2
rank running = 3
rank uploading_artifacts = 4
rank completed = 5
rank failed = 6
rank canceled = 7
rank timed_out = 8

-- `a === b` on the texts of two statuses.
abbrev pub same_status : RunStatus → RunStatus → Bool
same_status a b = rank a == rank b

-- The texts of `errorMessage`, with what is filled in.
pub data RunError : Type 0 where
  provisioning_failed : String → RunError
  workspace_disappeared : RunError
  workspace_failed : Option ErrorCode → RunError
  initialization_error : String → RunError
  agent_initialization_failed : String → RunError
  exceeded_duration : ℕ → RunError
  no_session : RunError
  heartbeat_timeout : RunError

pub record Run : Type 0 where
  pub id : ℕ
  pub project_id : ℕ
  pub user_id : ℕ
  pub status : RunStatus
  pub gpu_type : ℕ
  pub gpu_count : ℕ
  pub hours_max : ℕ
  pub upstream_instance_id : Option ℕ
  pub billed_seconds : ℕ
  pub stripe_usage_reported : Bool
  pub infra_started_at : Option ℕ
  pub infra_finished_at : Option ℕ
  pub started_at : Option ℕ
  pub finished_at : Option ℕ
  pub error_message : Option RunError
  pub created_at : ℕ
  pub updated_at : ℕ

-- The types of events; a status event names a state, or some other text.
pub data RunEventKind : Type 0 where
  status_event : Option RunStatus → RunEventKind
  log_event metric_event artifact_event heartbeat_event error_event command_event : RunEventKind

pub record RunEvent : Type 0 where
  pub run_id : ℕ
  pub kind : RunEventKind
  pub created_at : ℕ

pub record AgentSession : Type 0 where
  pub id : ℕ
  pub run_id : ℕ
  pub last_heartbeat_at : Option ℕ
  pub created_at : ℕ

-- A meter event that Stripe has accepted: its identifier and its value.
pub record MeterCall : Type 0 where
  pub identifier : ℕ
  pub customer : ℕ
  pub value : ℕ

pub record Project : Type 0 where
  pub id : ℕ
  pub user_id : ℕ

pub record RunWorld : Type 0 where
  pub runs : List Run
  pub events : List RunEvent
  pub agent_sessions : List AgentSession
  pub projects : List Project
  pub meter : List MeterCall
  pub platform : Platform

pub data AgentReply : Type 0 where
  ok : AgentReply
  failure : String → AgentReply

-- What a tick of the executor finds outside of the database: the ids that it makes for workspaces
-- and jobs, the error of a transaction that it refuses, which addresses are in the subnet, what the
-- agent answers to a run's `execute`, the customers of users, which meter events Stripe takes, for which
-- runs the update after that is answered, and what requests write while the agent of a run is called.
pub record Outside : Type 0 where
  pub workspace_id_for : ℕ → ℕ
  pub job_id_for : ℕ → ℕ
  pub refused : ℕ → Option String
  pub in_subnet : ℕ → Bool
  pub agent : ℕ → AgentReply
  pub customer_of : ℕ → Option ℕ
  pub takes_meter : ℕ → Bool
  pub marks_reported : ℕ → Bool
  pub meanwhile : ℕ → RunWorld → RunWorld

abbrev pub run_with_id : ℕ → Run → Bool
run_with_id id r = r.id == id

-- `prisma.run.update` of a run that is there.
abbrev pub on_run : ℕ → (Run → Run) → RunWorld → RunWorld
on_run id change w = record w { runs = update_many (run_with_id id) change w.runs }

abbrev pub find_run : ℕ → RunWorld → Option Run
find_run id w = find_first (run_with_id id) w.runs

-- `for (const run of runs)`
unfoldable pub for_each : (Run → RunWorld → RunWorld) → List Run → RunWorld → RunWorld
for_each step [] w = w
for_each step (r ∷ rs) w = for_each step rs (step r w)
