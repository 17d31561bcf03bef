-- ===== src/Runs/Book.antt =====
-- What the books of the runs keep, and what one turn of a loop over runs may change: for the
-- functions of worker/src/jobs/run-executor.ts and the routes of apps/api/src/routes/v1/runs.ts.
use final_aldaro.Common.{
  ℕ, ◌≡◌, ◌≢◌, refl, sym, ◌∙◌, subst, inl, inr, true, false, none, some, List, [], ◌∷◌, ◌==◌, ltb,
  if◌then◌else◌, arith, All, Distinct, Distinct-update_many, find_first, update_many,
  find_first-update_many, find_first-update_many_other, Bool-cases,
}
use final_aldaro.Runs.Rows.{Run, RunWorld, MeterCall, is_finished, run_with_id}
use final_aldaro.Runs.Lifecycle.{Reach, stay, Reach-trans, Reach-over}

abbrev pub Found : Run → List Run → Type 0
Found r runs = find_first (run_with_id r.id) runs ≡ some r

-- The values that Stripe has for a run.
unfoldable pub metered : ℕ → List MeterCall → List ℕ
metered id [] = []
metered id (c ∷ cs) = if c.identifier == id then c.value ∷ metered id cs else metered id cs

-- A run has seconds to bill only when it is over, Stripe has them only then and never any other
-- number of seconds, and it has them if the run is marked as reported.
pub record IsSettled (meter : List MeterCall) (r : Run) : Type 0 where
  pub due : ltb 0 r.billed_seconds ≡ true → is_finished r.status ≡ true
  pub final : r.stripe_usage_reported ≡ true → is_finished r.status ≡ true
  pub sent : All (λ v. v ≡ r.billed_seconds) (metered r.id meter)
  pub taken : r.stripe_usage_reported ≡ true → metered r.id meter ≢ []
  pub unsent : is_finished r.status ≡ false → metered r.id meter ≡ []

pub record IsBook (runs : List Run) (meter : List MeterCall) : Type 0 where
  pub distinct : Distinct (λ r. r.id) runs
  pub settled : (r : Run) → Found r runs → IsSettled meter r
  pub known : (id : ℕ) → find_first (run_with_id id) runs ≡ none → metered id meter ≡ []

-- No run is lost, and each one has only moved along the lifecycle.
abbrev pub Forward : List Run → List Run → Type 0
Forward before after =
    (r : Run) → Found r before → (s : Run) × Found s after × (s.id ≡ r.id) × Reach r.status s.status

pub Forward-refl : (runs : List Run) → Forward runs runs
Forward-refl runs r found = (r, found, refl, stay)

pub Forward-trans : (a b c : List Run) → Forward a b → Forward b c → Forward a c
Forward-trans a b c h k r found =
    let (s, at_s, same_s, to_s) = h r found in
    let (t, at_t, same_t, to_t) = k s at_s in (t, at_t, same_t ∙ same_s, Reach-trans to_s to_t)

-- A change of the row of `r` that the books allow.
pub record IsSound (f : Run → Run) (r : Run) : Type 0 where
  pub same_id : (x : Run) → (f x).id ≡ x.id
  pub moves : Reach r.status (f r).status
  pub same_flag : (f r).stripe_usage_reported ≡ r.stripe_usage_reported
  pub same_bill : is_finished r.status ≡ true → (f r).billed_seconds ≡ r.billed_seconds
  pub due : ltb 0 (f r).billed_seconds ≡ true → is_finished (f r).status ≡ true

-- From one state of both tables to another, by a turn that is about the run `id`.
pub record Turn (id : ℕ) (runs runs' : List Run) (meter' : List MeterCall) : Type 0 where
  pub book : IsBook runs' meter'
  pub forward : Forward runs runs'
  pub others : (s : Run) → s.id ≢ id → Found s runs → Found s runs'

pub Turn-refl :
    (id : ℕ) (runs : List Run) (meter : List MeterCall)
    → IsBook runs meter
    → Turn id runs runs meter
Turn-refl id runs meter b = record {
  book = b;
  forward = Forward-refl runs;
  others = λ s ne found. found;
}

pub Turn-trans :
    (id : ℕ) (a b c : List Run) (m n : List MeterCall)
    → Turn id a b m
    → Turn id b c n
    → Turn id a c n
Turn-trans id a b c m n h k = record {
  book = k.book;
  forward = Forward-trans a b c h.forward k.forward;
  others = λ s ne found. k.others s ne (h.others s ne found);
}

IsSettled-sound :
    (f : Run → Run) (r : Run) (meter : List MeterCall)
    → IsSound f r
    → IsSettled meter r
    → IsSettled meter (f r)
IsSettled-sound f r meter sound h = record {
  due = sound.due;
  final = λ e. Reach-over sound.moves (h.final (sym sound.same_flag ∙ e));
  sent = rw (sound.same_id r) (elim (Bool-cases (is_finished r.status)) [
    | inl over ↦ rw (sound.same_bill over) h.sent
    | inr on ↦ rw (h.unsent on) tt
  ]);
  taken = λ e. rw (sound.same_id r) (h.taken (sym sound.same_flag ∙ e));
  unsent = λ e. rw (sound.same_id r) (elim (Bool-cases (is_finished r.status)) [
    | inl over ↦ let later = Reach-over sound.moves over in absurd (ground arith)
    | inr on ↦ h.unsent on
  ]);
}

module _ (f : Run → Run) (r : Run) (runs : List Run) (same : (x : Run) → (f x).id ≡ x.id) where
  -- The row of `r` is the changed one, and the other rows are as they were.
  pub Found-changed :
      Found r runs
      → find_first (run_with_id r.id) (update_many (run_with_id r.id) f runs) ≡ some (f r)
  Found-changed found =
      find_first-update_many (run_with_id r.id) f runs r (λ x. ground (arith, same x)) found

  pub Found-others :
      (id : ℕ)
      → id ≢ r.id
      → find_first (run_with_id id) (update_many (run_with_id r.id) f runs)
        ≡ find_first (run_with_id id) runs
  Found-others id ne =
      find_first-update_many_other (run_with_id r.id) (run_with_id id) f runs
        (λ x hit. (ground arith, ground (arith, same x)))

-- A change of the run's row alone, whose outcome is settled.
pub Turn-row :
    (f : Run → Run) (r : Run) (runs : List Run) (meter : List MeterCall)
    → ((x : Run) → (f x).id ≡ x.id)
    → Reach r.status (f r).status
    → IsSettled meter (f r)
    → IsBook runs meter
    → Found r runs
    → Turn r.id runs (update_many (run_with_id r.id) f runs) meter
Turn-row f r runs meter same_id moves settled b found =
    let own = Found-changed f r runs same_id found in
    let apart = Found-others f r runs same_id in
    record {
      book = record {
        distinct = Distinct-update_many (λ x. x.id) (run_with_id r.id) f runs same_id b.distinct;
        settled = λ s at. elim (Bool-cases (s.id == r.id)) [
          | inl e ↦ let same : s ≡ f r = ground arith in subst (IsSettled meter) (sym same) settled
          | inr e ↦ b.settled s (sym (apart s.id (ground arith)) ∙ at)
        ];
        known = λ id gone. elim (Bool-cases (id == r.id)) [
          | inl e ↦ absurd (ground arith)
          | inr e ↦ b.known id (sym (apart id (ground arith)) ∙ gone)
        ];
      };
      forward = λ s at. elim (Bool-cases (s.id == r.id)) [
        | inl e ↦
            let same : r ≡ s = ground arith in
            (
              f r,
              ground (arith, same_id r),
              ground (arith, same_id r),
              subst (λ x. Reach x.status (f r).status) same moves,
            )
        | inr e ↦ (s, apart s.id (ground arith) ∙ at, refl, stay)
      ];
      others = λ s ne at. apart s.id ne ∙ at;
    }

pub Turn-change :
    (f : Run → Run) (r : Run) (runs : List Run) (meter : List MeterCall)
    → IsSound f r
    → IsBook runs meter
    → Found r runs
    → Turn r.id runs (update_many (run_with_id r.id) f runs) meter
Turn-change f r runs meter sound b found =
    Turn-row f r runs meter sound.same_id sound.moves
      (IsSettled-sound f r meter sound (b.settled r found)) b found

abbrev pub Turning : ℕ → RunWorld → RunWorld → Type 0
Turning id w v = Turn id w.runs v.runs v.meter

pub Turning-trans : (id : ℕ) (a b c : RunWorld) → Turning id a b → Turning id b c → Turning id a c
Turning-trans id a b c h k = Turn-trans id a.runs b.runs c.runs b.meter c.meter h k

module _ (f : Run → Run) (r : Run) (same_id : (x : Run) → (f x).id ≡ x.id) where
  -- A change that ends a run.
  pub IsSound-end :
      (f r).stripe_usage_reported ≡ r.stripe_usage_reported
      → Reach r.status (f r).status
      → is_finished r.status ≡ false
      → is_finished (f r).status ≡ true
      → IsSound f r
  IsSound-end flag moves unfinished over = record {
    same_id = same_id;
    moves = moves;
    same_flag = flag;
    same_bill = λ e. absurd (ground arith);
    due = λ e. over;
  }

  -- A change that leaves the seconds as they are.
  pub IsSound-move :
      (meter : List MeterCall)
      → (f r).stripe_usage_reported ≡ r.stripe_usage_reported
      → (f r).billed_seconds ≡ r.billed_seconds
      → Reach r.status (f r).status
      → IsSettled meter r
      → IsSound f r
  IsSound-move meter flag bill moves h = record {
    same_id = same_id;
    moves = moves;
    same_flag = flag;
    same_bill = λ e. bill;
    due = λ e. Reach-over moves (h.due (ground arith));
  }
