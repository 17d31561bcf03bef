-- ===== src/Launch/Rows.antt =====
-- The tables `users` and `workspace_launch_operations` (packages/db/prisma/schema.prisma), and what a
-- launch finds outside of the database. The keys and hashes that clients send are opaque numbers.
use final_aldaro.Common.{ℕ, String, Bool, true, false, Option, none, some, List, ◌==◌, ◌&&◌}
use final_aldaro.Cleanup.Rows.{Platform}
use final_aldaro.Billing.Catalog.{Catalog}
use final_aldaro.Gateway.Leases.{Env}
use final_aldaro.Secrets.Crypto.{Text}

pub record User : Type 0 where
  pub id : ℕ
  pub payment_valid : Bool
  pub monthly_soft_limit_cents : Option ℕ
  -- `hardLimitAction: 'AUTO_TERMINATE'`
  pub auto_terminate : Bool
  pub max_active_workspaces : ℕ

pub data OperationStatus : Type 0 where
  processing completed failed : OperationStatus

abbrev pub is_failed : OperationStatus → Bool
is_failed processing = false
is_failed completed = false
is_failed failed = true

-- An error that is thrown. A text that is empty is `none`.
pub record Thrown : Type 0 where
  pub code : Option String
  pub message : Option String

-- `new Error(message)`
abbrev pub error : String → Thrown
error text = record { code = none; message = some text }

pub record LaunchOperation : Type 0 where
  pub user_id : ℕ
  pub operation_key : ℕ
  pub request_hash : ℕ
  pub workspace_id : Option ℕ
  pub status : OperationStatus
  pub last_error_code : Option String
  pub last_error_message : Option String

abbrev pub operation_of : (user key : ℕ) → LaunchOperation → Bool
operation_of user key op = op.user_id == user && op.operation_key == key

abbrev pub user_with_id : ℕ → User → Bool
user_with_id id u = u.id == id

-- The tables that a launch reads and writes.
pub record Desk : Type 0 where
  pub users : List User
  pub operations : List LaunchOperation
  pub platform : Platform
  pub catalog : Catalog

pub record Request : Type 0 where
  pub user_id : ℕ
  pub gpu_type : ℕ
  pub region : ℕ
  pub operation_key : ℕ
  pub request_hash : ℕ
  pub max_duration_minutes : Option ℕ
  pub custom_image : Option Text
  pub registry_credential_id : Option ℕ

-- The request to the gateway is answered by the gateway, or fails before or after it is served.
pub data Call : Type 0 where
  answered : Call
  lost : (served : Bool) → Thrown → Call

-- What surrounds a launch: the clock, the ids that the database makes, the gateway, and what other
-- requests write between two statements of this one: before the operation's row is created, before
-- each poll for the outcome of another request, and before the warm workspace is assigned.
pub record Outside : Type 0 where
  pub now : ℕ
  pub month_start : ℕ
  pub workspace_id : ℕ
  pub session_id : ℕ
  pub event_id : ℕ
  pub require_payment : Bool
  pub gateway : Env
  pub call : Call
  -- what the client throws on an answer that is not a success
  pub refusal : Thrown
  pub before_create : Desk → Desk
  pub polls : List (Desk → Desk)
  pub before_assign : Desk → Desk
  -- what the update of a launch that went well throws, and whether the one of a failed launch throws
  pub complete_fault : Option Thrown
  pub fail_fault : Bool
