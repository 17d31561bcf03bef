-- ===== src/Billing/Tests.antt =====
-- Runs of the billing code at concrete tables, and its theorems applied to them.
use final_aldaro.Common.{
  ◌+◌, ◌-◌, ◌*◌, ◌<◌, ◌≡◌, refl, ◌≤◌, true, false, none, some, [], ◌∷◌, arith, All, update_many,
}
use final_aldaro.Billing.Rows.{
  UsageSession, MeterEvent, Ledger, running_in, running, ended, is_running, SessionStatus,
}
use final_aldaro.Billing.Close.{
  Surroundings, settle, close_session, new_event, close_tx, close_each, finalize_usage_sessions,
  end_usage_session,
}
use final_aldaro.Billing.Catalog.{
  Catalog, WarmPoolConfig, mark_rental, resolve_price, session_price, cold_price,
}
use final_aldaro.Billing.Start.{new_session, create_session, start_cold_session}
use final_aldaro.Billing.Ledger.{IsLedger}
use final_aldaro.Billing.Same.{end_usage_session-finalize_usage_sessions}
use final_aldaro.Billing.History.{
  System, Reach, IsSound, Fresh, here, next, open_session, read, close, emit, Reach-IsSound,
}
use final_aldaro.Billing.Metering.{
  MeterWorld, threw, meter_request, send_meter_event, failed_row, mark_failed, process_meter_event,
}
use final_aldaro.Billing.Batch.{process_workspace_meter_events}
use final_aldaro.Billing.Attempts.{
  IsBounded, Truthful, process_meter_event-IsBounded, process_workspace_meter_events-Truthful,
}
use final_aldaro.Billing.Final.{closed_is_final, StillBilled}
use final_aldaro.Billing.Worker.{finalize_usage_sessions-closes}
use final_aldaro.Billing.Amounts.{user_mtd_spend, settle-covers, user_mtd_spend-close}
use final_aldaro.Billing.Prices.{quoted_price-charged}

abbrev no_rows : Ledger
no_rows = record { sessions = []; outbox = [] }

-- User 5 has workspace 7 at 100 cents an hour from 1000 ms on.
abbrev session : UsageSession
session = new_session 1 5 7 0 1000 100

abbrev opened : Ledger
opened = record { sessions = session ∷ []; outbox = [] }

-- It is closed after 3600.001 seconds.
abbrev billed : UsageSession
billed = close_session (settle session 3_601_001) session

abbrev closed : Ledger
closed = record {
  sessions = billed ∷ [];
  outbox = new_event session (settle session 3_601_001) 9 ∷ [];
}

billed_amount : billed.billed_cents ≡ 101
unfolding new_session settle close_session
billed_amount = refl

abbrev calm : Surroundings
calm = record { clock = λ s. 3_601_001; event_id = λ s. 9; fault = λ s. none }

finalize_closes : finalize_usage_sessions calm 7 opened ≡ (closed, none)
unfolding finalize_usage_sessions close_each close_tx new_session settle close_session
finalize_closes = refl

end_closes : end_usage_session calm 7 opened ≡ (closed, none)
unfolding end_usage_session close_tx new_session settle close_session
end_closes = refl

no_rows-IsLedger : IsLedger no_rows
no_rows-IsLedger = record { ids = tt; events = tt; accounted = tt; one_running = tt }

no_rows-Fresh : Fresh 1 no_rows
no_rows-Fresh = record { unused = tt; unmetered = refl }

opened-IsLedger : IsLedger opened
unfolding new_session
opened-IsLedger = record {
  ids = (tt, tt);
  events = tt;
  accounted = (refl, tt);
  one_running = (tt, tt);
}

-- The API opens the session, the worker and the API both read it, and the worker closes it first.
abbrev start_state : System
start_state = record { ledger = no_rows; held = [] }

race : Reach start_state (record { ledger = closed; held = session ∷ session ∷ [] })
unfolding new_session create_session close_tx settle close_session
race =
    next
      (next
        (next (next here (open_session 1 5 7 0 1000 100 opened no_rows-Fresh refl))
          (read (λ s. true) session refl))
        (read (λ s. true) session refl))
      (close (λ s. true) session 3_601_001 9 closed refl refl)

Reach-IsSound_example : IsSound (record { ledger = closed; held = session ∷ session ∷ [] })
Reach-IsSound_example = Reach-IsSound race (record { tables = no_rows-IsLedger; holds = tt })

-- The other reader's close comes too late: P2025, and nothing changes.
late_close : close_tx session (settle session 9_000_000) 12 closed ≡ none
unfolding close_tx new_session settle close_session
late_close = refl

-- After the race, Stripe is down once.
abbrev outage : MeterWorld
outage = record {
  customer = λ u. some 3;
  fetch = λ q. threw (record { code = none; message = some "connect ECONNREFUSED" });
  fault = none;
  now = 3_610_000;
  later = 3_610_500;
}

abbrev event : MeterEvent
event = new_event session (settle session 3_601_001) 9

abbrev retried : Ledger
retried = record closed {
  outbox =
      failed_row outage event (record { code = none; message = some "connect ECONNREFUSED" }) event
      ∷ [];
}

outage_retries : (process_meter_event outage event closed).0 ≡ some retried
unfolding process_meter_event meter_request send_meter_event mark_failed failed_row new_event
outage_retries = refl

closed_is_final_example : StillBilled 1 billed retried
unfolding new_session settle close_session
closed_is_final_example =
    closed_is_final {y = record { ledger = closed; held = [] }}
      {z = record { ledger = retried; held = [] }} 1 billed refl refl
      (next here (emit outage event retried outage_retries))

finalize_usage_sessions-closes_example :
    ((finalize_usage_sessions calm 7 opened).1 ≡ none)
    × All (λ r. running_in 7 r ≡ false) (finalize_usage_sessions calm 7 opened).0.sessions
    × IsLedger (finalize_usage_sessions calm 7 opened).0
finalize_usage_sessions-closes_example =
    finalize_usage_sessions-closes calm 7 opened (λ s. refl) opened-IsLedger

settle-covers_example :
    (3_601_001 - session.start_time ≤ (settle session 3_601_001).total_seconds * 1000)
    × ((settle session 3_601_001).total_seconds * 1000 < 3_601_001 - session.start_time + 1000)
    × ((settle session 3_601_001).total_seconds * session.price_per_hour_cents
        ≤ (settle session 3_601_001).billed_cents * 3600)
    × ((settle session 3_601_001).billed_cents * 3600
        < (settle session 3_601_001).total_seconds * session.price_per_hour_cents + 3600)
settle-covers_example = settle-covers session 3_601_001

process_meter_event-IsBounded_example : All IsBounded retried.outbox
unfolding new_event
process_meter_event-IsBounded_example =
    process_meter_event-IsBounded outage event closed retried refl ((λ _. (refl, refl, refl)), tt)
      (record { left = λ _. omega arith; share = omega arith }, tt) outage_retries

closed-IsLedger : IsLedger closed
closed-IsLedger = Reach-IsSound_example.tables

process_workspace_meter_events-Truthful_example :
    All
      (Truthful closed.sessions)
      (process_workspace_meter_events true (λ e. outage) 3_610_000 closed).1
process_workspace_meter_events-Truthful_example =
    process_workspace_meter_events-Truthful true (λ e. outage) 3_610_000 closed closed-IsLedger

abbrev prices : Catalog
prices = record {
  configs =
      record {
        id = 1;
        region = 0;
        gpu_type = 0;
        target_count = 2;
        base_price_cents = 55;
        current_spot_price_cents = 80;
        last_price_update_at = none;
        last_rental_at = none;
      }
      ∷ [];
  skus = [];
}

-- The price that is locked at launch is the one that a cold session is opened at.
locked_price_runs :
    start_cold_session 1 5 7 0 (some 90) 1000 no_rows prices no_rows
    ≡ record { sessions = new_session 1 5 7 0 1000 90 ∷ []; outbox = [] }
unfolding start_cold_session create_session cold_price
locked_price_runs = refl

is_running-running : (st : SessionStatus) → is_running st ≡ true → st ≡ running
is_running-running running h = refl
is_running-running ended h = cc

running_in-running : (s : UsageSession) → running_in 7 s ≡ true → s.status ≡ running
running_in-running s h = is_running-running s.status (ground arith)

user_mtd_spend-close_example :
    user_mtd_spend 5 0 3_601_001 (session ∷ [])
    ≤ user_mtd_spend 5 0 3_601_001
        (update_many (running_in 7) (λ s. close_session (settle s 3_601_001) s) (session ∷ []))
user_mtd_spend-close_example =
    user_mtd_spend-close 5 0 3_601_001 (running_in 7) (session ∷ []) running_in-running

abbrev pool : WarmPoolConfig
pool = record {
  id = 1;
  region = 0;
  gpu_type = 0;
  target_count = 2;
  base_price_cents = 55;
  current_spot_price_cents = 80;
  last_price_update_at = none;
  last_rental_at = none;
}

-- The spot price is quoted, and the catalog is gone by the time the cold workspace has booted.
quoted_price-charged_example :
    (session_price 0 none 1000 prices ≡ (80, mark_rental pool 1000 prices))
    × (cold_price 0 (some 80) (record { configs = []; skus = [] }) ≡ 80)
unfolding resolve_price
quoted_price-charged_example =
    quoted_price-charged 0 none 1000 80 prices (mark_rental pool 1000 prices)
      (record { configs = []; skus = [] }) refl (omega arith)

end_usage_session-finalize_usage_sessions_example :
    end_usage_session calm 7 opened ≡ finalize_usage_sessions calm 7 opened
end_usage_session-finalize_usage_sessions_example =
    end_usage_session-finalize_usage_sessions calm 7 opened opened-IsLedger
