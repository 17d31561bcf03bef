-- ===== src/Store/Tests.antt =====
-- The store at concrete calls.
use final_aldaro.Common.{ℕ, ◌≡◌, refl, true, false, none, some, List, [], ◌∷◌, arith}
use final_aldaro.Store.Contract.{
  Call, set_value, read_value, claim, collect, quiet, value_is, claimed, serve,
}
use final_aldaro.Store.Memory.{set_with_ttl, get_value, set_if_absent_with_ttl, sweep, put}
use final_aldaro.Store.Refines.{run, replay, run_refines}

-- A state of OAuth is claimed once, and again when its 600 seconds are over.
abbrev calls : List (ℕ × Call)
calls =
    (0, claim 1 7 600_000)
    ∷ (1000, claim 1 8 600_000)
    ∷ (2000, set_value 2 9 1500)
    ∷ (3999, read_value 2)
    ∷ (4000, read_value 2)
    ∷ (600_000, collect)
    ∷ (600_001, claim 1 8 600_000)
    ∷ []

answers :
    run calls []
    ≡ claimed true
      ∷ claimed false
      ∷ quiet
      ∷ value_is (some 9)
      ∷ value_is none
      ∷ quiet
      ∷ claimed true
      ∷ []
unfolding run serve set_with_ttl get_value set_if_absent_with_ttl sweep put
answers = refl

run_refines_example : run calls [] ≡ replay calls (λ k. none)
run_refines_example = run_refines calls (
  omega arith,
  (omega arith, (omega arith, (omega arith, (omega arith, (omega arith, (omega arith, tt)))))),
)
