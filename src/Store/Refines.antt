-- ===== src/Store/Refines.antt =====
-- The Map of apps/api/src/lib/ephemeralStore.ts, over any sequence of calls, against its contract.
use final_aldaro.Common.{ℕ, ◌≤◌, ◌≡◌, refl, none, List, [], ◌∷◌}
use final_aldaro.Store.Memory.{Slot}
use final_aldaro.Store.Contract.{Call, Answer, Spec, serve, specify, Agrees}
use final_aldaro.Store.Agreement.{Agrees-later, serve-Agrees}

-- Calls with their times.
unfoldable pub run : List (ℕ × Call) → List Slot → List Answer
run [] mem = []
run ((now, c) ∷ calls) mem = let (answer, mem') = serve now c mem in answer ∷ run calls mem'

pub replay : List (ℕ × Call) → Spec → List Answer
replay [] f = []
replay ((now, c) ∷ calls) f = let (answer, f') = specify now c f in answer ∷ replay calls f'

-- The clock does not run backwards.
abbrev pub InOrder : ℕ → List (ℕ × Call) → Type 0
InOrder now [] = Unit
InOrder now ((t, c) ∷ calls) = (now ≤ t) × InOrder t calls

run-Agrees :
    (calls : List (ℕ × Call)) (now : ℕ) (mem : List Slot) (f : Spec)
    → InOrder now calls
    → Agrees now mem f
    → run calls mem ≡ replay calls f
unfolding run replay
run-Agrees [] now mem f ordered a = refl
run-Agrees ((t, c) ∷ calls) now mem f (h, ordered) a =
    let (answer, after) = serve-Agrees t c mem f (Agrees-later now t mem f h a) in
    let rest = run-Agrees calls t (serve t c mem).1 (specify t c f).1 ordered after in
    rw (answer, rest) refl

-- Without Redis, any sequence of calls and sweeps on the empty Map, with a clock that does not run
-- backwards, is answered as by a function from keys that forgets nothing.
pub run_refines :
    (calls : List (ℕ × Call)) → InOrder 0 calls → run calls [] ≡ replay calls (λ k. none)
run_refines calls ordered =
    run-Agrees calls 0 [] (λ k. none) ordered (record { keys = tt; same = λ k. refl })
