-- ===== src/Hooks/Address.antt =====
-- `isBlockedDestination` of worker/src/jobs/webhook-delivery.ts on the addresses that a name resolves to:
-- the four numbers of an IPv4 address, and the character codes of the text of an IPv6 address.
use final_aldaro.Common.{ℕ, Bool, true, false, List, [], ◌∷◌, ◌==◌, ◌&&◌, ◌||◌, leb, any}

pub data Address : Type 0 where
  v4 : (a b c d : ℕ) → Address
  v6 : List ℕ → Address

-- `text.startsWith(prefix)`
unfoldable pub starts_with : List ℕ → List ℕ → Bool
starts_with text [] = true
starts_with [] (p ∷ prefix) = false
starts_with (c ∷ text) (p ∷ prefix) = c == p && starts_with text prefix

-- `fc`, `fd`, `fe80`
abbrev pub unique_local_c : List ℕ
unique_local_c = 102 ∷ 99 ∷ []

abbrev pub unique_local_d : List ℕ
unique_local_d = 102 ∷ 100 ∷ []

abbrev pub link_local : List ℕ
link_local = 102 ∷ 101 ∷ 56 ∷ 48 ∷ []

-- `text === '::1'`
unfoldable pub is_loopback : List ℕ → Bool
is_loopback (a ∷ b ∷ c ∷ []) = a == 58 && (b == 58 && c == 49)
is_loopback _ = false

unfoldable pub is_blocked : Address → Bool
is_blocked (v4 a b c d) =
    (a == 127 && (b == 0 && (c == 0 && d == 1)))
    || ((a == 0 && (b == 0 && (c == 0 && d == 0)))
        || (a == 10
            || ((a == 172 && (leb 16 b && leb b 31))
                || ((a == 192 && b == 168) || (a == 169 && b == 254)))))
is_blocked (v6 text) =
    is_loopback text
    || (starts_with text unique_local_c
        || (starts_with text unique_local_d || starts_with text link_local))

-- Nothing resolved is blocked too.
unfoldable pub is_blocked_destination : List Address → Bool
is_blocked_destination [] = true
is_blocked_destination (a ∷ rest) = any is_blocked (a ∷ rest)
