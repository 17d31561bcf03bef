-- ===== src/Budget/Rows.antt =====
-- The tables of the budget monitor (packages/db/prisma/schema.prisma): the columns of users and organizations
-- that budgets use, memberships, alerts and the e-mails that warn. An e-mail is known by the parts of
-- its dedupe key; months are opaque numbers.
use final_aldaro.Common.{ℕ, Bool, Option, List, ◌==◌}
use final_aldaro.Cleanup.Rows.{Platform}
use final_aldaro.Hooks.Delivery.{Switchboard}

-- A user or an organization; `auto_terminate` is `hardLimitAction === 'AUTO_TERMINATE'`.
pub record Account : Type 0 where
  pub id : ℕ
  pub monthly_soft_limit_cents : Option ℕ
  pub auto_terminate : Bool
  pub last_budget_alert_at : Option ℕ

pub record Membership : Type 0 where
  pub org_id : ℕ
  pub user_id : ℕ
  pub is_owner : Bool
  pub is_active_member : Bool

pub record BudgetAlert : Type 0 where
  pub user_id : ℕ
  pub mtd_spend_cents : ℕ
  pub limit_cents : ℕ
  pub threshold_pct : ℕ
  pub terminates : Bool
  pub workspaces_terminated : ℕ

pub record Notice : Type 0 where
  pub of_org : Bool
  pub account_id : ℕ
  pub month : ℕ
  pub threshold_pct : ℕ

pub record BudgetWorld : Type 0 where
  pub users : List Account
  pub orgs : List Account
  pub memberships : List Membership
  pub alerts : List BudgetAlert
  pub notices : List Notice
  pub switchboard : Switchboard
  pub platform : Platform

-- The time of the tick, the start of its month, the month, and the ids that the database makes.
pub record Tick : Type 0 where
  pub now : ℕ
  pub month_start : ℕ
  pub month : ℕ
  pub job_id_for : ℕ → ℕ
  pub delivery_id_for : ℕ → ℕ

abbrev pub account_with_id : ℕ → Account → Bool
account_with_id id a = a.id == id
