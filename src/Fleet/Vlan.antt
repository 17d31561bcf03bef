-- ===== src/Fleet/Vlan.antt =====
-- `deriveVlanTag` of worker/src/jobs/warm-pool.ts: a text is the list of its character codes, and a 32-bit integer
-- is its bit pattern, a number below 2 ^ 32.
use final_aldaro.Common.{
  ℕ, ◌+◌, ◌-◌, ◌*◌, ◌%◌, ◌^◌, ◌≤◌, ◌<◌, List, [], ◌∷◌, arith, ltb, if◌then◌else◌,
}

abbrev pub user_vlan_base : ℕ
user_vlan_base = 200

-- `((hash << 5) - hash + code) | 0`: the shift wraps, the rest is exact until `| 0` wraps it.
unfoldable pub hash_step : (hash code : ℕ) → ℕ
hash_step hash code = ((hash * 32) % 2 ^ 32 + 2 ^ 32 - hash + code) % 2 ^ 32

unfoldable pub hash_from : ℕ → List ℕ → ℕ
unfolding hash_step
hash_from hash [] = hash
hash_from hash (c ∷ cs) = hash_from (hash_step hash c) cs

-- `Math.abs` of the signed integer.
abbrev pub abs32 : ℕ → ℕ
abs32 x = if ltb x (2 ^ 31) then x else 2 ^ 32 - x

unfoldable pub derive_vlan_tag : List ℕ → ℕ
unfolding hash_from
derive_vlan_tag id = user_vlan_base + abs32 (hash_from 0 id) % (4094 - user_vlan_base)

-- The number 4094 itself is never given.
pub derive_vlan_tag_bounds :
    (id : List ℕ) → (200 ≤ derive_vlan_tag id) × (derive_vlan_tag id < 4094)
unfolding derive_vlan_tag
derive_vlan_tag_bounds id = omega arith
