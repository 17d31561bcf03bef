-- ===== src/Runs/Loops.antt =====
-- The books under a loop `for (const run of runs)` of worker/src/jobs/run-executor.ts, whose runs were
-- read before it began.
use final_aldaro.Common.{
  ℕ, ◌≡◌, ◌≢◌, Bool, true, List, [], ◌∷◌, All, All-map, All-both, All-take, All-order_by,
  All-find_many, All-find_many-fits, find_first-Distinct, Distinct, Distinct-take,
  Distinct-order_by, Distinct-find_many, find_many, take, order_by,
}
use final_aldaro.Runs.Rows.{Run, RunWorld, for_each}
use final_aldaro.Runs.Book.{Found, IsBook, Forward, Forward-refl, Forward-trans, Turning}
use final_aldaro.Runs.Turns.{Keeps}

-- The books still hold, and no run went back.
abbrev pub Kept : RunWorld → RunWorld → Type 0
Kept w v = IsBook v.runs v.meter × Forward w.runs v.runs

pub Kept-refl : (w : RunWorld) → IsBook w.runs w.meter → Kept w w
Kept-refl w b = (b, Forward-refl w.runs)

pub Kept-trans : (a b c : RunWorld) → Kept a b → Kept b c → Kept a c
Kept-trans a b c h k = (k.0, Forward-trans a.runs b.runs c.runs h.1 k.1)

-- Runs that were read from a table, each one once, and that are fit for a turn.
pub record IsBatch (Ready : Run → Type 0) (table : List Run) (rs : List Run) : Type 0 where
  pub distinct : Distinct (λ r. r.id) rs
  pub ready : All Ready rs
  pub found : All (λ r. Found r table) rs

module _ (Ready : Run → Type 0) where
  -- After the first turn, the rest of the batch is as it was read.
  pub IsBatch-rest :
      (r : Run) (rs : List Run) (w v : RunWorld)
      → IsBatch Ready w.runs (r ∷ rs)
      → Turning r.id w v
      → IsBatch Ready v.runs rs
  IsBatch-rest r rs w v batch turn = record {
    distinct = batch.distinct.1;
    ready = batch.ready.1;
    found =
        All-map (λ s. (s.id ≢ r.id) × Found s w.runs) (λ s. Found s v.runs) rs
          (λ s both. turn.others s both.0 both.1)
          (All-both (λ s. s.id ≢ r.id) (λ s. Found s w.runs) rs batch.distinct.0 batch.found.1);
  }

  pub for_each-Kept :
      (step : Run → RunWorld → RunWorld) (keeps : Keeps Ready step) (rs : List Run) (w : RunWorld)
      → IsBatch Ready w.runs rs
      → IsBook w.runs w.meter
      → Kept w (for_each step rs w)
  unfolding for_each
  for_each-Kept step keeps [] w batch b = Kept-refl w b
  for_each-Kept step keeps (r ∷ rs) w batch b =
      let turn = keeps r w batch.ready.0 b batch.found.0 in
      let v = step r w in
      Kept-trans w v (for_each step rs v) (turn.book, turn.forward)
        (for_each-Kept step keeps rs v (IsBatch-rest r rs w v batch turn) turn.book)

  pub find_many-IsBatch :
      (p : Run → Bool) (runs : List Run)
      → ((r : Run) → p r ≡ true → Ready r)
      → Distinct (λ r. r.id) runs
      → IsBatch Ready runs (find_many p runs)
  find_many-IsBatch p runs fits d = record {
    distinct = Distinct-find_many (λ r. r.id) p runs d;
    ready = All-map (λ r. p r ≡ true) Ready (find_many p runs) fits (All-find_many-fits p runs);
    found = All-find_many (λ r. Found r runs) p runs (find_first-Distinct (λ r. r.id) runs d);
  }

  pub take-IsBatch :
      (n : ℕ) (table rs : List Run) → IsBatch Ready table rs → IsBatch Ready table (take n rs)
  take-IsBatch n table rs h = record {
    distinct = Distinct-take (λ r. r.id) n rs h.distinct;
    ready = All-take Ready n rs h.ready;
    found = All-take (λ r. Found r table) n rs h.found;
  }

  pub order_by-IsBatch :
      (key : Run → ℕ) (table rs : List Run)
      → IsBatch Ready table rs
      → IsBatch Ready table (order_by key rs)
  order_by-IsBatch key table rs h = record {
    distinct = Distinct-order_by (λ r. r.id) key rs h.distinct;
    ready = All-order_by Ready key rs h.ready;
    found = All-order_by (λ r. Found r table) key rs h.found;
  }
