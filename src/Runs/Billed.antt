-- ===== src/Runs/Billed.antt =====
-- The books under `reportRunBilling`, `finalizeRun` and `failRun` of worker/src/jobs/run-executor.ts.
use final_aldaro.Common.{
  ℕ, ◌≡◌, ◌≢◌, refl, sym, ◌∙◌, subst, inl, inr, true, false, not, List, [], ◌∷◌, ◌==◌, ◌||◌, ltb,
  arith, update_many, find_first-fits, Bool-cases, Option-cases,
}
use final_aldaro.Cleanup.Rows.{Platform}
use final_aldaro.Runs.Rows.{
  Run, RunError, RunWorld, Outside, MeterCall, completed, is_finished, on_run, find_run,
  run_with_id,
}
use final_aldaro.Runs.Lifecycle.{Next, stay, one, fail}
use final_aldaro.Runs.Billing.{
  mark_reported, meter_call, sent_usage, send_usage, report_run_billing, finish_row, final_seconds,
  finalize_run, fail_row, fail_run, seconds_since, clean_up_after,
}
use final_aldaro.Runs.Book.{
  Found, metered, IsSettled, IsBook, IsSound, Turn, Turning, Turn-refl, Turn-row, Turning-trans,
  IsSound-end, Turn-change, Forward-refl,
}

-- A call for one run is not one for another.
metered-other :
    (id : ℕ) (c : MeterCall) (meter : List MeterCall)
    → id ≢ c.identifier
    → metered id (c ∷ meter) ≡ metered id meter
unfolding metered
metered-other id c meter ne = ground arith

metered-own :
    (id : ℕ) (c : MeterCall) (meter : List MeterCall)
    → c.identifier ≡ id
    → metered id (c ∷ meter) ≡ c.value ∷ metered id meter
unfolding metered
metered-own id c meter e = ground arith

IsSettled-other :
    (c : MeterCall) (meter : List MeterCall) (s : Run)
    → s.id ≢ c.identifier
    → IsSettled meter s
    → IsSettled (c ∷ meter) s
IsSettled-other c meter s ne h =
    let same = metered-other s.id c meter ne in
    record {
      due = h.due;
      final = h.final;
      sent = rw same h.sent;
      taken = λ e. rw same (h.taken e);
      unsent = λ e. same ∙ h.unsent e;
    }

module _ (now customer : ℕ) (r : Run) (runs : List Run) (meter : List MeterCall) where
  own_calls : metered r.id (meter_call r customer ∷ meter) ≡ r.billed_seconds ∷ metered r.id meter
  own_calls = metered-own r.id (meter_call r customer) meter refl

  IsSettled-sent :
      ltb 0 r.billed_seconds ≡ true
      → IsSettled meter r
      → IsSettled (meter_call r customer ∷ meter) r
  IsSettled-sent due h = record {
    due = h.due;
    final = h.final;
    sent = rw own_calls (refl, h.sent);
    taken = λ e. rw own_calls λ empty. cc;
    unsent = λ e. let over = h.due due in absurd (ground arith);
  }

  -- Stripe takes the seconds of a run.
  Turn-sent :
      ltb 0 r.billed_seconds ≡ true
      → IsBook runs meter
      → Found r runs
      → Turn r.id runs runs (meter_call r customer ∷ meter)
  Turn-sent due b found = record {
    book = record {
      distinct = b.distinct;
      settled = λ s at. elim (Bool-cases (s.id == r.id)) [
        | inl e ↦
            let equal : s ≡ r = ground arith in
            subst (IsSettled (meter_call r customer ∷ meter)) (sym equal)
              (IsSettled-sent due (b.settled r found))
        | inr e ↦ IsSettled-other (meter_call r customer) meter s (ground arith) (b.settled s at)
      ];
      known = λ id gone. elim (Bool-cases (id == r.id)) [
        | inl e ↦ absurd (ground arith)
        | inr e ↦ metered-other id (meter_call r customer) meter (ground arith) ∙ b.known id gone
      ];
    };
    forward = Forward-refl runs;
    others = λ s ne at. at;
  }

  -- The flag is set on a run whose seconds Stripe has.
  Turn-mark :
      metered r.id meter ≢ []
      → ltb 0 r.billed_seconds ≡ true
      → IsBook runs meter
      → Found r runs
      → Turn r.id runs (update_many (run_with_id r.id) (mark_reported now) runs) meter
  Turn-mark has due b found =
      let h = b.settled r found in
      Turn-row (mark_reported now) r runs meter (λ x. refl) stay
        (record {
          due = h.due;
          final = λ e. h.due due;
          sent = h.sent;
          taken = λ e. has;
          unsent = h.unsent;
        })
        b found

send_usage-Turn :
    (out : Outside) (now : ℕ) (r : Run) (w : RunWorld)
    → IsBook w.runs w.meter
    → Found r w.runs
    → Turning r.id w (send_usage out now r w)
unfolding send_usage
send_usage-Turn out now r w b found = elim (Option-cases (out.customer_of r.user_id)) [
  | inl e ↦ rw (e, send_usage) (Turn-refl r.id w.runs w.meter b)
  | inr (customer, e) ↦
      elim (Bool-cases
        (r.stripe_usage_reported || (r.billed_seconds == 0 || not (out.takes_meter r.id)))) [
          | inl skip ↦ rw (e, skip, send_usage) (Turn-refl r.id w.runs w.meter b)
          | inr send ↦
              let due : ltb 0 r.billed_seconds ≡ true = ground arith in
              let v = sent_usage customer r w in
              let told = Turn-sent now customer r w.runs w.meter due b found in
              elim (Bool-cases (out.marks_reported r.id)) [
                | inr unmarked ↦ rw (e, send, unmarked, send_usage) told
                | inl marked ↦
                    rw (e, send, marked, send_usage)
                      (Turning-trans r.id w v (on_run r.id (mark_reported now) v) told (
                        Turn-mark now customer r v.runs v.meter
                          (rw (own_calls now customer r w.runs w.meter) λ empty. cc) due told.book
                          found))
              ]
        ]
]

pub report_run_billing-Turn :
    (out : Outside) (now id : ℕ) (w : RunWorld)
    → IsBook w.runs w.meter
    → Turning id w (report_run_billing out now id w)
unfolding report_run_billing
report_run_billing-Turn out now id w b = elim (Option-cases (find_run id w)) [
  | inl e ↦ rw (e, report_run_billing) (Turn-refl id w.runs w.meter b)
  | inr (r, e) ↦
      let fits = find_first-fits (run_with_id id) w.runs r e in
      let same : r.id ≡ id = ground arith in
      let found : Found r w.runs = ground arith in
      rw (e, report_run_billing)
        (subst (λ k. Turning k w (send_usage out now r w)) same
          (send_usage-Turn out now r w b found))
]

-- A change of the run's row, whatever it does to the platform, and then the report.
pub Turning-settle :
    (out : Outside) (now : ℕ) (f : Run → Run) (r : Run) (w : RunWorld) (p : Platform)
    → IsSound f r
    → IsBook w.runs w.meter
    → Found r w.runs
    → Turning r.id w (report_run_billing out now r.id (record (on_run r.id f w) { platform = p }))
Turning-settle out now f r w p sound b found =
    let v : RunWorld = record (on_run r.id f w) { platform = p } in
    let first = Turn-change f r w.runs w.meter sound b found in
    Turning-trans r.id w v (report_run_billing out now r.id v) first
      (report_run_billing-Turn out now r.id v first.book)

pub finalize_run-Turn :
    (out : Outside) (now : ℕ) (r : Run) (w : RunWorld)
    → Next r.status completed
    → is_finished r.status ≡ false
    → IsBook w.runs w.meter
    → Found r w.runs
    → Turning r.id w (finalize_run out now r w)
unfolding finalize_run
finalize_run-Turn out now r w next unfinished b found =
    let change = finish_row now completed (final_seconds now r) r in
    rw (unfinished, finalize_run)
      (Turning-settle out now change r w w.platform
        (IsSound-end change r (λ x. refl) refl (one next) unfinished refl) b found)

pub fail_run-Turn :
    (out : Outside) (now : ℕ) (error : RunError) (r : Run) (w : RunWorld)
    → is_finished r.status ≡ false
    → IsBook w.runs w.meter
    → Found r w.runs
    → Turning r.id w (fail_run out now error r w)
unfolding fail_run
fail_run-Turn out now error r w unfinished b found =
    let change = fail_row now error (seconds_since r.started_at now) in
    let platform = (clean_up_after out "run_failed" now r (on_run r.id change w)).platform in
    Turning-settle out now change r w platform
      (IsSound-end change r (λ x. refl) refl (one (fail unfinished)) unfinished refl) b found
