-- ===== src/Secrets/Crypto.antt =====
-- `encryptSecret` and `decryptSecret` of packages/shared/src/secretCrypto.ts on texts as lists of code points,
-- where a surrogate stands alone. Node's AES-256-GCM, UTF-8, base64 and key derivation are parameters.
use final_aldaro.Common.{
  ℕ, suc, zero, Bool, true, false, not, Option, none, some, List, [], ◌∷◌, ◌++◌, ◌==◌, ◌||◌,
  if◌then◌else◌,
}
use final_aldaro.Hooks.Address.{starts_with}

abbrev pub Text : Type 0
Text = List ℕ

abbrev pub Bytes : Type 0
Bytes = List ℕ

-- The derived key and the legacy key, where ENCRYPTION_KEY is set, the random bytes of the next
-- call, and the library's functions; `open` throws on a wrong tag.
pub record Cipher : Type 0 where
  pub production : Bool
  pub derived_key : Option ℕ
  pub legacy_key : Option ℕ
  pub iv : Bytes
  pub seal : (key : ℕ) → (iv bytes : Bytes) → Bytes × Bytes
  pub unseal : (key : ℕ) → (iv tag body : Bytes) → Option Bytes
  pub to_utf8 : Text → Bytes
  pub from_utf8 : Bytes → Text
  pub to_base64 : Bytes → Text
  pub from_base64 : Text → Bytes

-- `enc:`
abbrev pub encrypted_prefix : Text
encrypted_prefix = 101 ∷ 110 ∷ 99 ∷ 58 ∷ []

abbrev pub is_empty : List ℕ → Bool
is_empty [] = true
is_empty (c ∷ cs) = false

abbrev pub is_encrypted : Text → Bool
is_encrypted stored = starts_with stored encrypted_prefix

abbrev pub put_first : ℕ → List Text → List Text
put_first c [] = (c ∷ []) ∷ []
put_first c (part ∷ parts) = (c ∷ part) ∷ parts

-- `payload.split(':')`
unfoldable pub split_colon : Text → List Text
split_colon [] = [] ∷ []
split_colon (c ∷ cs) = let rest = split_colon cs in if c == 58 then [] ∷ rest else put_first c rest

-- `stored.slice(4)`
abbrev pub drop : ℕ → Text → Text
drop zero cs = cs
drop (suc n) [] = []
drop (suc n) (c ∷ cs) = drop n cs

abbrev pub sealed_text : Cipher → (iv tag body : Bytes) → Text
sealed_text c iv tag body =
    encrypted_prefix ++ (c.to_base64 iv ++ 58 ∷ (c.to_base64 tag ++ 58 ∷ c.to_base64 body))

-- With the key that there is; `none` is an error that is thrown.
unfoldable pub encrypt_under : Cipher → Option ℕ → Text → Option Text
encrypt_under c none plain = if c.production then none else some plain
encrypt_under c (some key) plain =
    let (tag, body) = c.seal key c.iv (c.to_utf8 plain) in some (sealed_text c c.iv tag body)

unfoldable pub encrypt_secret : Cipher → Text → Option Text
encrypt_secret c plain = encrypt_under c c.derived_key plain

abbrev pub read_text : Cipher → Option Bytes → Option Text
read_text c none = none
read_text c (some bytes) = some (c.from_utf8 bytes)

-- The derived key first, then the legacy one.
unfoldable pub open_secret : Cipher → (key : ℕ) → (iv tag body : Bytes) → Option Text
open_secret c key iv tag body = elim (c.unseal key iv tag body) [
  | some bytes ↦ some (c.from_utf8 bytes)
  | none ↦ elim c.legacy_key [
    | none ↦ none
    | some legacy ↦ read_text c (c.unseal legacy iv tag body)
  ]
]

unfoldable pub open_parts : Cipher → (key : ℕ) → List Text → Option Text
open_parts c key (iv ∷ tag ∷ body ∷ more) =
    if is_empty iv || (is_empty tag || is_empty body)
    then none
    else open_secret c key (c.from_base64 iv) (c.from_base64 tag) (c.from_base64 body)
open_parts c key _ = none

unfoldable pub decrypt_under : Cipher → Option ℕ → Text → Option Text
decrypt_under c none payload = none
decrypt_under c (some key) payload = open_parts c key (split_colon payload)

unfoldable pub decrypt_secret : Cipher → Text → Option Text
decrypt_secret c stored =
    if not (is_encrypted stored) then some stored else decrypt_under c c.derived_key (drop 4 stored)
