-- ===== src/Billing/Start.antt =====
-- Opening usage sessions: `startUsageSession` of apps/api/src/services/workspaceService.ts and
-- `startUsageSessionForColdWorkspace` of worker/src/jobs/warm-pool.ts. A second running session for
-- a workspace is refused by the partial unique index of
-- packages/db/prisma/migrations/20260313000000_enforce_one_running_session/migration.sql.
use final_aldaro.Common.{ℕ, Option, none, some, [], ◌∷◌, ◌++◌, any, or_else, if◌then◌else◌}
use final_aldaro.Billing.Rows.{UsageSession, Ledger, running, running_in}
use final_aldaro.Billing.Catalog.{Catalog, session_price, cold_price}

-- A row of status RUNNING as `create` fills it in.
unfoldable pub new_session : ℕ → ℕ → ℕ → ℕ → ℕ → ℕ → UsageSession
new_session id user workspace gpu now price = record {
  id = id;
  user_id = user;
  workspace_id = workspace;
  gpu_type = gpu;
  start_time = now;
  end_time = none;
  total_seconds = 0;
  billed_seconds = 0;
  price_per_hour_cents = price;
  billed_cents = 0;
  stripe_meter_event_id = none;
  status = running;
}

-- `usageSession.create` under the partial unique index; `none` is P2002.
unfoldable pub create_session : UsageSession → Ledger → Option Ledger
create_session new l =
    if any (running_in new.workspace_id) l.sessions
    then none
    else some (record l { sessions = l.sessions ++ new ∷ [] })

-- `findFirst` for a running session, then the price, then `create` with P2002 ignored. Another
-- caller may have written the ledger between the two: `seen` is the ledger of the first query.
unfoldable pub start_usage_session :
    (id user workspace gpu : ℕ) (locked : Option ℕ) (now : ℕ)
    → Ledger
    → Catalog
    → Ledger
    → Ledger × Catalog
start_usage_session id user workspace gpu locked now seen c l =
    if any (running_in workspace) seen.sessions
    then (l, c)
    else let (price, c') = session_price gpu locked now c in
      (or_else (create_session (new_session id user workspace gpu now price) l) l, c')

unfoldable pub start_cold_session :
    (id user workspace gpu : ℕ) (locked : Option ℕ) (now : ℕ) → Ledger → Catalog → Ledger → Ledger
start_cold_session id user workspace gpu locked now seen c l =
    if any (running_in workspace) seen.sessions
    then l
    else or_else
        (create_session (new_session id user workspace gpu now (cold_price gpu locked c)) l) l
