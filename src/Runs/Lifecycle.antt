-- ===== src/Runs/Lifecycle.antt =====
-- The lifecycle that the head of worker/src/jobs/run-executor.ts describes, as a relation on statuses.
use final_aldaro.Common.{◌≡◌, refl, true, false, arith}
use final_aldaro.Runs.Rows.{
  RunStatus, queued, provisioning, initializing, running, uploading_artifacts, completed, failed,
  canceled, timed_out, is_finished,
}
use final_aldaro.Runs.Events.{is_valid_transition}

pub data Next : RunStatus → RunStatus → Type 0 where
  provision : Next queued provisioning
  boot : Next provisioning initializing
  start : Next initializing running
  upload : Next running uploading_artifacts
  complete : Next running completed
  complete_upload : Next uploading_artifacts completed
  expire : Next running timed_out
  fail : {s : RunStatus} → is_finished s ≡ false → Next s failed
  cancel : {s : RunStatus} → is_finished s ≡ false → Next s canceled

-- Any number of steps.
pub data Reach : RunStatus → RunStatus → Type 0 where
  stay : {s : RunStatus} → Reach s s
  then : {s t u : RunStatus} → Next s t → Reach t u → Reach s u

ruleset edges = (provision, boot, start, upload, complete, complete_upload, expire, fail, cancel)

pub Reach-trans : {s t u : RunStatus} → Reach s t → Reach t u → Reach s u
Reach-trans stay k = k
Reach-trans (then n h) k = then n (Reach-trans h k)

pub one : {s t : RunStatus} → Next s t → Reach s t
one n = then n stay

pub Next-open : {s t : RunStatus} → Next s t → is_finished s ≡ false
Next-open provision = refl
Next-open boot = refl
Next-open start = refl
Next-open upload = refl
Next-open complete = refl
Next-open complete_upload = refl
Next-open expire = refl
Next-open (fail h) = h
Next-open (cancel h) = h

-- Nothing follows the end.
pub Reach-final : {s t : RunStatus} → Reach s t → is_finished s ≡ true → t ≡ s
Reach-final stay h = refl
Reach-final (then n k) h = let unfinished = Next-open n in absurd (ground arith)

pub Reach-over : {s t : RunStatus} → Reach s t → is_finished s ≡ true → is_finished t ≡ true
Reach-over k h = let same = Reach-final k h in ground arith

-- What the route lets an agent report is a step of the lifecycle.
pub is_valid_transition-Next : (s t : RunStatus) → is_valid_transition s t ≡ true → Next s t
unfolding is_valid_transition
is_valid_transition-Next s t h = grind (arith, edges)
