-- ===== src/Runs/Play.antt =====
-- Runs in all that happens to them: the stages of the ticks of worker/src/jobs/run-executor.ts between the
-- requests that apps/api/src/routes/v1/runs.ts serves, in any order. No request is served between the reads
-- and the writes of one stage, other than while an agent is called.
use final_aldaro.Common.{ℕ, ◌≡◌, refl, Bool, Option, List, [], ◌∷◌, map, All}
use final_aldaro.Runs.Rows.{RunWorld, RunEventKind, Outside}
use final_aldaro.Runs.Requests.{User, RunRequest, create_run, retry_run, cancel_run}
use final_aldaro.Runs.Events.{AgentToken, receive_event}
use final_aldaro.Runs.Monitor.{
  Stage, queue, provision, initialize, monitor, upload, clean_up, sweep, run_stage,
  run_executor_tick,
}
use final_aldaro.Runs.Turns.{IsCalm}
use final_aldaro.Runs.Book.{IsBook, Forward}
use final_aldaro.Runs.Loops.{Kept, Kept-refl, Kept-trans}
use final_aldaro.Runs.Ticks.{run_stage-Kept}
use final_aldaro.Runs.Asked.{create_run-Kept, retry_run-Kept, cancel_run-Kept}
use final_aldaro.Runs.Reported.{receive_event-Kept}

pub data Action : Type 0 where
  executor : Stage → Outside → (now : ℕ) → Action
  report : Outside → (now run : ℕ) → Option AgentToken → RunEventKind → Action
  create : (ℕ → Bool) → (id now today user : ℕ) → Option User → RunRequest → Action
  retry : (id now today run user : ℕ) → Option User → Action
  cancel : (run user now : ℕ) → Action

unfoldable pub act : Action → RunWorld → RunWorld
act (executor s out now) w = run_stage s out now w
act (report out now run token kind) w = (receive_event out now run token kind w).0
act (create is_supported id now today user account q) w =
    (create_run is_supported id now today user account q w).0
act (retry id now today run user account) w = (retry_run id now today run user account w).0
act (cancel run user now) w = (cancel_run run user now w).0

unfoldable pub play : List Action → RunWorld → RunWorld
play [] w = w
play (a ∷ rest) w = play rest (act a w)

-- A tick is its seven stages with nothing in between.
tick_stages : Outside → ℕ → List Action
tick_stages out now =
    map (λ s. executor s out now)
      (queue ∷ provision ∷ initialize ∷ monitor ∷ upload ∷ clean_up ∷ sweep ∷ [])

run_executor_tick-play :
    (out : Outside) (now : ℕ) (w : RunWorld)
    → run_executor_tick out now w ≡ play (tick_stages out now) w
unfolding run_executor_tick tick_stages play act run_stage
run_executor_tick-play out now w = refl

-- While the agent of a run is called, no request writes rows of runs.
abbrev pub IsCalmly : Action → Type 0
IsCalmly (executor s out now) = IsCalm out
IsCalmly (report out now run token kind) = Unit
IsCalmly (create is_supported id now today user account q) = Unit
IsCalmly (retry id now today run user account) = Unit
IsCalmly (cancel run user now) = Unit

act-Kept : (a : Action) (w : RunWorld) → IsCalmly a → IsBook w.runs w.meter → Kept w (act a w)
unfolding act
act-Kept (executor s out now) w calm b = run_stage-Kept s out now w calm b
act-Kept (report out now run token kind) w calm b = receive_event-Kept out now run token kind w b
act-Kept (create is_supported id now today user account q) w calm b =
    create_run-Kept is_supported id now today user account q w b
act-Kept (retry id now today run user account) w calm b =
    retry_run-Kept id now today run user account w b
act-Kept (cancel run user now) w calm b = cancel_run-Kept run user now w b

play-Kept :
    (actions : List Action) (w : RunWorld)
    → All IsCalmly actions
    → IsBook w.runs w.meter
    → Kept w (play actions w)
unfolding play
play-Kept [] w calm b = Kept-refl w b
play-Kept (a ∷ rest) w calm b =
    let first = act-Kept a w calm.0 b in
    Kept-trans w (act a w) (play rest (act a w)) first (play-Kept rest (act a w) calm.1 first.0)

-- Where no request is served between the reads and the writes of a stage, other than while an
-- agent is called, and none writes rows of runs or meter events then, whatever stages of the
-- executor, agent events, creations, retries and cancels follow each other, also where the update
-- of stripeUsageReported fails after Stripe has taken a meter event, the books of the runs hold:
-- ids are distinct, a run has seconds to bill or is marked as reported only when it is over,
-- Stripe has seconds of a run only when it is over and never another number than the run's, and it
-- has them if the run is marked as reported.
pub play-IsBook :
    (actions : List Action) (w : RunWorld)
    → All IsCalmly actions
    → IsBook w.runs w.meter
    → IsBook (play actions w).runs (play actions w).meter
play-IsBook actions w calm b = (play-Kept actions w calm b).0

-- Where no request is served between the reads and the writes of a stage, other than while an
-- agent is called, and none writes rows of runs or meter events then, from tables where the books
-- hold, no sequence of stages of the executor, agent events, creations, retries and cancels loses
-- a run, and each run's status has moved only along the steps of the lifecycle.
pub play-Forward :
    (actions : List Action) (w : RunWorld)
    → All IsCalmly actions
    → IsBook w.runs w.meter
    → Forward w.runs (play actions w).runs
play-Forward actions w calm b = (play-Kept actions w calm b).1
