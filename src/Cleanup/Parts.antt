-- ===== src/Cleanup/Parts.antt =====
-- The parts of an attempt at a cleanup, one after the other: what a part keeps, and what it leads to.
use final_aldaro.Common.{◌≡◌, inl, inr, none, some, Option-cases}
use final_aldaro.Billing.Rows.{Failure}
use final_aldaro.Cleanup.Rows.{Platform}
use final_aldaro.Cleanup.Attempt.{Run, Write, Act, and_then, write}

-- The part keeps `Q`, whether it throws or not.
abbrev pub Stays : (Platform → Type 0) → Act → Type 0
Stays Q act = (p : Platform) → Q p → Q (act p).0

-- Where the part does not throw, it leads from `R` to `Q`.
abbrev pub Gives : (Platform → Type 0) → (Platform → Type 0) → Act → Type 0
Gives R Q act = (p : Platform) → R p → (act p).1 ≡ none → Q (act p).0

thrown-none : (f : Failure) → some f ≡ none → ⊥
thrown-none f e = cc

module _ (R Q : Platform → Type 0) (first second : Act) where
  pub and_then-Stays : Stays Q first → Stays Q second → Stays Q (and_then first second)
  unfolding and_then
  and_then-Stays h k p q = elim (Option-cases (first p).1) [
    | inl fine ↦ rw (fine, and_then) (k (first p).0 (h p q))
    | inr (f, bad) ↦ rw (bad, and_then) (h p q)
  ]

  pub and_then-first : Gives R Q first → Stays Q second → Gives R Q (and_then first second)
  unfolding and_then
  and_then-first h k p r e = elim (Option-cases (first p).1) [
    | inl fine ↦ rw (fine, and_then) (k (first p).0 (h p r fine))
    | inr (f, bad) ↦ absurd (thrown-none f (rw (bad, and_then) at e))
  ]

  pub and_then-second : Stays R first → Gives R Q second → Gives R Q (and_then first second)
  unfolding and_then
  and_then-second h k p r e = elim (Option-cases (first p).1) [
    | inl fine ↦ rw (fine, and_then) (k (first p).0 (h p r) (rw (fine, and_then) at e))
    | inr (f, bad) ↦ absurd (thrown-none f (rw (bad, and_then) at e))
  ]

module _ (R Q : Platform → Type 0) (run : Run) (point : Write) (f : Platform → Platform) where
  pub write-Stays : ((p : Platform) → Q p → Q (f p)) → Stays Q (write run point f)
  unfolding write
  write-Stays h p q = elim (Option-cases (run.fault point)) [
    | inl fine ↦ rw (fine, write) (h p q)
    | inr (e, bad) ↦ rw (bad, write) q
  ]

  pub write-Gives : ((p : Platform) → R p → Q (f p)) → Gives R Q (write run point f)
  unfolding write
  write-Gives h p r e = elim (Option-cases (run.fault point)) [
    | inl fine ↦ rw (fine, write) (h p r)
    | inr (g, bad) ↦ absurd (thrown-none g (rw (bad, write) at e))
  ]
