-- ===== src/Store/Memory.antt =====
-- The store of values that expire: apps/api/src/lib/ephemeralStore.ts. Keys and values are opaque
-- numbers. Redis is not code of the repository: what it answers is an argument, and `none` there means
-- that no client is configured, so that the Map of the process is used.
use final_aldaro.Common.{
  ℕ, ◌+◌, ◌*◌, max, Bool, true, false, Option, none, some, List, ◌==◌, leb, ltb, ceil_div, is_some,
  if◌then◌else◌, find_first, delete_many, upsert,
}

-- An entry of the Map.
pub record Slot : Type 0 where
  pub key : ℕ
  pub value : ℕ
  pub expires_at : ℕ

-- What a call of Redis answers.
pub data Redis : Type 0 where
  stored : Redis
  present : Redis
  found : ℕ → Redis
  missing : Redis
  failed : Redis

abbrev pub slot_of : ℕ → Slot → Bool
slot_of key s = s.key == key

abbrev pub is_expired : ℕ → Slot → Bool
is_expired now s = leb s.expires_at now

-- `Math.max(1, Math.ceil(ttlSeconds))`, where the time to live is given in milliseconds.
abbrev pub ttl_seconds : ℕ → ℕ
ttl_seconds ttl_ms = max 1 (ceil_div ttl_ms 1000)

-- `mem.set`
unfoldable pub put : ℕ → ℕ → ℕ → ℕ → List Slot → List Slot
put now key value ttl_ms mem =
    let slot : Slot = record {
      key = key;
      value = value;
      expires_at = now + ttl_seconds ttl_ms * 1000;
    } in
    upsert (slot_of key) (λ _. slot) slot mem

unfoldable pub set_with_ttl : Option Redis → ℕ → ℕ → ℕ → ℕ → List Slot → List Slot
set_with_ttl (some answer) now key value ttl_ms mem = mem
set_with_ttl none now key value ttl_ms mem = put now key value ttl_ms mem

-- An error of Redis reads as a miss.
abbrev pub redis_value : Redis → Option ℕ
redis_value stored = none
redis_value present = none
redis_value (found v) = some v
redis_value missing = none
redis_value failed = none

unfoldable pub get_value : Option Redis → ℕ → ℕ → List Slot → Option ℕ × List Slot
get_value (some answer) now key mem = (redis_value answer, mem)
get_value none now key mem = elim (find_first (slot_of key) mem) [
  | none ↦ (none, mem)
  | some s ↦ if is_expired now s then (none, delete_many (slot_of key) mem) else (some s.value, mem)
]

unfoldable pub exists_key : Option Redis → ℕ → ℕ → List Slot → Bool × List Slot
exists_key redis now key mem =
    let (value, mem') = get_value redis now key mem in (is_some value, mem')

-- `res === 'OK'`; an error counts as fresh.
abbrev pub redis_claimed : Redis → Bool
redis_claimed stored = true
redis_claimed present = false
redis_claimed (found v) = false
redis_claimed missing = false
redis_claimed failed = true

unfoldable pub set_if_absent_with_ttl : Option Redis → ℕ → ℕ → ℕ → ℕ → List Slot → Bool × List Slot
set_if_absent_with_ttl (some answer) now key value ttl_ms mem = (redis_claimed answer, mem)
set_if_absent_with_ttl none now key value ttl_ms mem = elim (find_first (slot_of key) mem) [
  | none ↦ (true, put now key value ttl_ms mem)
  | some s ↦ if ltb now s.expires_at then (false, mem) else (true, put now key value ttl_ms mem)
]

-- The timer `_gc`.
unfoldable pub sweep : ℕ → List Slot → List Slot
sweep now mem = delete_many (is_expired now) mem

-- `revokeJti` and `isJtiRevoked`; `key` is the text `revoked:jti:` and the token's id, and the value is
-- the text `1`.
unfoldable pub revoke_jti : Option Redis → ℕ → ℕ → ℕ → List Slot → List Slot
unfolding set_with_ttl put
revoke_jti redis now key ttl_ms mem = set_with_ttl redis now key 1 ttl_ms mem

unfoldable pub is_jti_revoked : Option Redis → ℕ → ℕ → List Slot → Bool × List Slot
unfolding exists_key get_value
is_jti_revoked redis now key mem = exists_key redis now key mem
