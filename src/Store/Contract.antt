-- ===== src/Store/Contract.antt =====
-- What apps/api/src/lib/ephemeralStore.ts promises to its callers, apart from Redis: its calls, and
-- a function from keys that answers them and never forgets.
use final_aldaro.Common.{
  ℕ, ◌+◌, ◌*◌, ◌≡◌, Bool, true, false, Option, none, some, List, ◌==◌, leb, if◌then◌else◌,
  find_first, Distinct,
}
use final_aldaro.Store.Memory.{
  Slot, slot_of, ttl_seconds, set_with_ttl, get_value, set_if_absent_with_ttl, sweep,
}

-- What a client may ask of the store, and the sweep of its timer.
pub data Call : Type 0 where
  set_value : (key value ttl_ms : ℕ) → Call
  read_value : (key : ℕ) → Call
  claim : (key value ttl_ms : ℕ) → Call
  collect : Call

pub data Answer : Type 0 where
  quiet : Answer
  value_is : Option ℕ → Answer
  claimed : Bool → Answer

-- One call at a time, without Redis.
unfoldable pub serve : ℕ → Call → List Slot → Answer × List Slot
serve now (set_value key value ttl_ms) mem = (quiet, set_with_ttl none now key value ttl_ms mem)
serve now (read_value key) mem = let (v, mem') = get_value none now key mem in (value_is v, mem')
serve now (claim key value ttl_ms) mem =
    let (fresh, mem') = set_if_absent_with_ttl none now key value ttl_ms mem in
    (claimed fresh, mem')
serve now collect mem = (quiet, sweep now mem)

-- The specification: each key has at most one value, with the time at which it ends.
abbrev pub Spec : Type 0
Spec = ℕ → Option (ℕ × ℕ)

abbrev pub live : ℕ → Option (ℕ × ℕ) → Option (ℕ × ℕ)
live now none = none
live now (some (value, ends)) = if leb ends now then none else some (value, ends)

abbrev pub value_part : Option (ℕ × ℕ) → Option ℕ
value_part none = none
value_part (some (value, ends)) = some value

abbrev pub is_none : Option (ℕ × ℕ) → Bool
is_none none = true
is_none (some p) = false

abbrev pub assign : ℕ → Option (ℕ × ℕ) → Spec → Spec
assign key entry f k = if k == key then entry else f k

unfoldable pub specify : ℕ → Call → Spec → Answer × Spec
specify now (set_value key value ttl_ms) f =
    (quiet, assign key (some (value, now + ttl_seconds ttl_ms * 1000)) f)
specify now (read_value key) f = (value_is (value_part (live now (f key))), f)
specify now (claim key value ttl_ms) f =
    let fresh = is_none (live now (f key)) in
    (
      claimed fresh,
      if fresh then assign key (some (value, now + ttl_seconds ttl_ms * 1000)) f else f,
    )
specify now collect f = (quiet, f)

abbrev pub entry : Option Slot → Option (ℕ × ℕ)
entry none = none
entry (some s) = some (s.value, s.expires_at)

abbrev pub view : List Slot → Spec
view mem k = entry (find_first (slot_of k) mem)

-- The Map has one entry to a key, and what it has of a key that has not ended is the specification's.
pub record Agrees (now : ℕ) (mem : List Slot) (f : Spec) : Type 0 where
  pub keys : Distinct (λ (s : Slot). s.key) mem
  pub same : (k : ℕ) → live now (view mem k) ≡ live now (f k)
