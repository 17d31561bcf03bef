-- ===== src/Runs/Asked.antt =====
-- The books under the routes of apps/api/src/routes/v1/runs.ts.
use final_aldaro.Common.{
  ℕ, ◌≡◌, ◌≢◌, refl, sym, subst, inl, inr, Bool, true, false, not, Option, none, some, ◌∷◌, ◌==◌,
  ◌&&◌, arith, any, All, All-map, find_first, find_first-absent, find_first-Distinct,
  All-find_first, Bool-cases, Option-cases, if◌then◌else◌,
}
use final_aldaro.Runs.Rows.{Run, RunWorld, is_finished, on_run, find_run, run_with_id}
use final_aldaro.Runs.Lifecycle.{stay, one, cancel}
use final_aldaro.Runs.Requests.{
  User, RunRequest, Response, is_well_formed, is_over_limit, new_run, insert_run, create_run,
  same_request, run_again, own_run, retry_run, cancel_row, deprovision_of, release_machine,
  cancel_run,
}
use final_aldaro.Runs.Book.{Found, IsSettled, IsBook, Forward, IsSound-move, Turning, Turn-change}
use final_aldaro.Runs.Loops.{Kept, Kept-refl}

-- A run without seconds comes in at the front.
module _ (r : Run) (w : RunWorld) (fresh : find_first (run_with_id r.id) w.runs ≡ none) where
  IsBook-insert :
      r.billed_seconds ≡ 0
      → r.stripe_usage_reported ≡ false
      → IsBook w.runs w.meter
      → IsBook (r ∷ w.runs) w.meter
  IsBook-insert unbilled unreported b = record {
    distinct = (distinct_here, b.distinct);
    settled = λ s at. elim (Bool-cases (r.id == s.id)) [
      | inl e ↦
          let same : s ≡ r = ground arith in
          subst (IsSettled w.meter) (sym same) (record {
            due = λ e. absurd (ground arith);
            final = λ e. absurd (ground arith);
            sent = rw (b.known r.id fresh) tt;
            taken = λ e. absurd (ground arith);
            unsent = λ e. b.known r.id fresh;
          })
      | inr e ↦ b.settled s (ground arith)
    ];
    known = λ id gone. b.known id (ground arith);
  }
    where
      distinct_here : All (λ y. y.id ≢ r.id) w.runs
      distinct_here =
          All-map (λ y. (y.id == r.id) ≡ false) (λ y. y.id ≢ r.id) w.runs (λ y e. ground arith)
            (find_first-absent (run_with_id r.id) w.runs fresh)

  Forward-insert : Forward w.runs (r ∷ w.runs)
  Forward-insert s at = (s, ground arith, refl, stay)

insert_run-Kept :
    (r : Run) (w : RunWorld)
    → r.billed_seconds ≡ 0
    → r.stripe_usage_reported ≡ false
    → IsBook w.runs w.meter
    → Kept w (insert_run r w).0
unfolding insert_run
insert_run-Kept r w unbilled unreported b = elim (Option-cases (find_run r.id w)) [
  | inl fresh ↦
      rw (fresh, insert_run)
        (IsBook-insert r w fresh unbilled unreported b, Forward-insert r w fresh)
  | inr (x, taken) ↦ rw (taken, insert_run) (Kept-refl w b)
]

-- A response after which the books are kept.
pub record IsSafe (w : RunWorld) (x : Response) : Type 0 where
  pub kept : Kept w x.0

IsSafe-if :
    (c : Bool) (w : RunWorld) (x y : Response)
    → IsSafe w x
    → IsSafe w y
    → IsSafe w (if c then x else y)
IsSafe-if true w x y h k = h
IsSafe-if false w x y h k = k

pub IsSafe-refl : (w : RunWorld) (code : ℕ) → IsBook w.runs w.meter → IsSafe w (w, code)
IsSafe-refl w code b = record { kept = Kept-refl w b }

-- A refusal that leaves everything as it was, before the rest.
pub IsSafe-unless :
    (c : Bool) (w : RunWorld) (code : ℕ) (y : Response)
    → IsBook w.runs w.meter
    → IsSafe w y
    → IsSafe w (if c then (w, code) else y)
IsSafe-unless c w code y b k = IsSafe-if c w (w, code) y (IsSafe-refl w code b) k

create_run-IsSafe :
    (is_supported : ℕ → Bool) (id now today user : ℕ) (account : Option User) (q : RunRequest)
    (w : RunWorld)
    → IsBook w.runs w.meter
    → IsSafe w (create_run is_supported id now today user account q w)
unfolding create_run
create_run-IsSafe is_supported id now today user none q w b =
    IsSafe-unless (not (is_well_formed q)) w 400 _ b (
      IsSafe-unless (not (any (λ p. p.id == q.project_id && p.user_id == user) w.projects)) w 404 _
        b (IsSafe-refl w 401 b))
create_run-IsSafe is_supported id now today user (some u) q w b =
    let last : IsSafe w (insert_run (new_run id user now q) w) = record {
      kept = insert_run-Kept (new_run id user now q) w refl refl b;
    } in
    IsSafe-unless (not (is_well_formed q)) w 400 _ b (
      IsSafe-unless (not (any (λ p. p.id == q.project_id && p.user_id == user) w.projects)) w 404 _
        b
        (IsSafe-unless (not u.is_alpha_tester) w 403 _ b (
          IsSafe-unless (is_over_limit u today w) w 429 _ b
            (IsSafe-unless (not (is_supported q.gpu_type)) w 400 _ b last))))

pub create_run-Kept :
    (is_supported : ℕ → Bool) (id now today user : ℕ) (account : Option User) (q : RunRequest)
    (w : RunWorld)
    → IsBook w.runs w.meter
    → Kept w (create_run is_supported id now today user account q w).0
create_run-Kept is_supported id now today user account q w b =
    (create_run-IsSafe is_supported id now today user account q w b).kept

again-Kept :
    (id now today user : ℕ) (account : Option User) (old : Run) (w : RunWorld)
    → IsBook w.runs w.meter
    → Kept w (run_again id now today user account old w).0
again-Kept id now today user none old w b = Kept-refl w b
again-Kept id now today user (some u) old w b =
    let r = new_run id user now (same_request old) in
    (IsSafe-if (is_over_limit u today w) w (w, 429) (insert_run r w) (IsSafe-refl w 429 b)
      (record { kept = insert_run-Kept r w refl refl b })).kept

pub retry_run-Kept :
    (id now today run user : ℕ) (account : Option User) (w : RunWorld)
    → IsBook w.runs w.meter
    → Kept w (retry_run id now today run user account w).0
unfolding retry_run
retry_run-Kept id now today run user account w b = elim (Option-cases (own_run run user w)) [
  | inl gone ↦ rw (gone, retry_run) (Kept-refl w b)
  | inr (old, there) ↦ rw (there, retry_run) (again-Kept id now today user account old w b)
]

-- A turn of one run keeps the books.
pub Turning-Kept : (id : ℕ) (w v : RunWorld) → Turning id w v → Kept w v
Turning-Kept id w v turn = (turn.book, turn.forward)

-- A run that a user asks for is the run with its id.
own_run-Found :
    (id user : ℕ) (w : RunWorld) (r : Run)
    → IsBook w.runs w.meter
    → own_run id user w ≡ some r
    → Found r w.runs
own_run-Found id user w r b e =
    All-find_first (λ x. Found x w.runs) (λ x. x.id == id && x.user_id == user) w.runs r
      (find_first-Distinct (λ x. x.id) w.runs b.distinct) e

cancel-Kept :
    (r : Run) (now : ℕ) (w : RunWorld)
    → is_finished r.status ≡ false
    → IsBook w.runs w.meter
    → Found r w.runs
    → Kept w (on_run r.id (cancel_row now) w)
cancel-Kept r now w unfinished b found = Turning-Kept r.id w (on_run r.id (cancel_row now) w) (
    Turn-change (cancel_row now) r w.runs w.meter
      (IsSound-move (cancel_row now) r (λ x. refl) w.meter refl refl (one (cancel unfinished))
        (b.settled r found))
      b found)

release_machine-Kept :
    (r : Run) (now : ℕ) (w v : RunWorld) → Kept w v → Kept w (release_machine r now v).0
unfolding release_machine
release_machine-Kept r now w v kept = elim (Option-cases (deprovision_of r now v.platform)) [
  | inl e ↦ rw (e, release_machine) kept
  | inr (p, e) ↦ rw (e, release_machine) kept
]

pub cancel_run-Kept :
    (run user now : ℕ) (w : RunWorld) → IsBook w.runs w.meter → Kept w (cancel_run run user now w).0
unfolding cancel_run
cancel_run-Kept run user now w b = elim (Option-cases (own_run run user w)) [
  | inl gone ↦ rw (gone, cancel_run) (Kept-refl w b)
  | inr (r, there) ↦ elim (Bool-cases (is_finished r.status)) [
    | inl over ↦ rw (there, over, cancel_run) (Kept-refl w b)
    | inr unfinished ↦
        rw (there, unfinished, cancel_run)
          (release_machine-Kept r now w (on_run r.id (cancel_row now) w)
            (cancel-Kept r now w unfinished b (own_run-Found run user w r b there)))
  ]
]
