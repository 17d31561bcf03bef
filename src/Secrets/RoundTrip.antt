-- ===== src/Secrets/RoundTrip.antt =====
-- What packages/shared/src/secretCrypto.ts encrypts, and what it makes of it again.
use final_aldaro.Common.{
  ℕ, ◌<◌, ◌⊎◌, ◌≡◌, ◌≢◌, refl, ◌∙◌, ap, false, some, [], ◌∷◌, ◌++◌, ◌==◌, ◌>>=◌, arith, All,
}
use final_aldaro.Hooks.Address.{starts_with}
use final_aldaro.Secrets.Crypto.{
  Text, Bytes, Cipher, is_empty, split_colon, sealed_text, encrypt_under, decrypt_under,
  encrypt_secret, open_secret, open_parts, decrypt_secret,
}

-- A code point that is not a surrogate.
abbrev pub IsScalar : ℕ → Type 0
IsScalar c = (c < 55_296) ⊎ (57_343 < c)

-- What Node documents: AES-GCM opens what it sealed with the same key and the same bytes, its tag is
-- not empty and its ciphertext is as long as what it sealed, UTF-8 is decoded to what was encoded
-- where no surrogate stands alone, and is empty for no text only, base64 is decoded to what was
-- encoded, has no colon, and is empty for no bytes only; the random bytes are twelve.
pub record IsCipher (c : Cipher) : Type 0 where
  pub opens :
      (key : ℕ) (iv bytes : Bytes)
      → c.unseal key iv (c.seal key iv bytes).0 (c.seal key iv bytes).1 ≡ some bytes
  pub tagged : (key : ℕ) (iv bytes : Bytes) → is_empty (c.seal key iv bytes).0 ≡ false
  pub covered : (key : ℕ) (iv bytes : Bytes) → is_empty (c.seal key iv bytes).1 ≡ is_empty bytes
  pub reads : (plain : Text) → All IsScalar plain → c.from_utf8 (c.to_utf8 plain) ≡ plain
  pub writes : (plain : Text) → is_empty (c.to_utf8 plain) ≡ is_empty plain
  pub decodes : (b : Bytes) → c.from_base64 (c.to_base64 b) ≡ b
  pub plain_digits : (b : Bytes) → All (λ d. d ≢ 58) (c.to_base64 b)
  pub encodes : (b : Bytes) → is_empty (c.to_base64 b) ≡ is_empty b
  pub seeded : is_empty c.iv ≡ false

split_colon-last : (xs : Text) → All (λ d. d ≢ 58) xs → split_colon xs ≡ xs ∷ []
unfolding split_colon
split_colon-last [] h = refl
split_colon-last (x ∷ xs) h =
    let rest = split_colon-last xs h.1 in
    let other : (x == 58) ≡ false = ground (arith, h.0) in rw (other, rest) refl

split_colon-part :
    (xs ys : Text) → All (λ d. d ≢ 58) xs → split_colon (xs ++ 58 ∷ ys) ≡ xs ∷ split_colon ys
unfolding split_colon
split_colon-part [] ys h = refl
split_colon-part (x ∷ xs) ys h =
    let rest = split_colon-part xs ys h.1 in
    let other : (x == 58) ≡ false = ground (arith, h.0) in rw (other, rest) refl

module _ (c : Cipher) (law : IsCipher c) (key : ℕ) where
  -- The three parts of what was written.
  parts :
      (iv tag body : Bytes)
      → split_colon (c.to_base64 iv ++ 58 ∷ (c.to_base64 tag ++ 58 ∷ c.to_base64 body))
        ≡ c.to_base64 iv ∷ c.to_base64 tag ∷ c.to_base64 body ∷ []
  parts iv tag body =
      split_colon-part (c.to_base64 iv) (c.to_base64 tag ++ 58 ∷ c.to_base64 body)
        (law.plain_digits iv)
      ∙ ap (λ ts. c.to_base64 iv ∷ ts)
          (split_colon-part (c.to_base64 tag) (c.to_base64 body) (law.plain_digits tag)
            ∙ ap (λ ts. c.to_base64 tag ∷ ts)
                (split_colon-last (c.to_base64 body) (law.plain_digits body)))

  open_parts-seal :
      (bytes : Bytes)
      → is_empty bytes ≡ false
      → open_parts c key (
          c.to_base64 c.iv
          ∷ c.to_base64 (c.seal key c.iv bytes).0
          ∷ c.to_base64 (c.seal key c.iv bytes).1
          ∷ [])
        ≡ some (c.from_utf8 bytes)
  unfolding open_parts open_secret
  open_parts-seal bytes full =
      let tag = (c.seal key c.iv bytes).0 in
      let body = (c.seal key c.iv bytes).1 in
      let a : is_empty (c.to_base64 c.iv) ≡ false = law.encodes c.iv ∙ law.seeded in
      let b : is_empty (c.to_base64 tag) ≡ false = law.encodes tag ∙ law.tagged key c.iv bytes in
      let d : is_empty (c.to_base64 body) ≡ false =
        law.encodes body ∙ (law.covered key c.iv bytes ∙ full) in
      rw
        (
          a,
          b,
          d,
          law.decodes c.iv,
          law.decodes tag,
          law.decodes body,
          law.opens key c.iv bytes,
          open_secret,
        )
        refl

  decrypt_secret-sealed_text :
      (bytes : Bytes)
      → decrypt_secret c (sealed_text c c.iv (c.seal key c.iv bytes).0 (c.seal key c.iv bytes).1)
        ≡ decrypt_under c c.derived_key (
            c.to_base64 c.iv
            ++ 58
              ∷ (c.to_base64 (c.seal key c.iv bytes).0
                  ++ 58 ∷ c.to_base64 (c.seal key c.iv bytes).1))
  unfolding decrypt_secret starts_with
  decrypt_secret-sealed_text bytes = refl

-- Under the documented laws of the cipher, of UTF-8 and of base64, and with a derived key, a text
-- that is not empty and has no lone surrogate is decrypted to itself after its encryption.
pub decrypt_secret-encrypt_secret :
    (c : Cipher) (key : ℕ) (plain : Text)
    → IsCipher c
    → c.derived_key ≡ some key
    → is_empty plain ≡ false
    → All IsScalar plain
    → (encrypt_secret c plain >>= decrypt_secret c) ≡ some plain
unfolding encrypt_secret encrypt_under decrypt_under
decrypt_secret-encrypt_secret c key plain law keyed full scalar =
    let bytes = c.to_utf8 plain in
    let tag = (c.seal key c.iv bytes).0 in
    let body = (c.seal key c.iv bytes).1 in
    let payload : Text = c.to_base64 c.iv ++ 58 ∷ (c.to_base64 tag ++ 58 ∷ c.to_base64 body) in
    ap (λ k. encrypt_under c k plain >>= decrypt_secret c) keyed
    ∙ (decrypt_secret-sealed_text c law key bytes
        ∙ (ap (λ k. decrypt_under c k payload) keyed
            ∙ (ap (open_parts c key) (parts c law key c.iv tag body)
                ∙ (open_parts-seal c law key bytes (law.writes plain ∙ full)
                    ∙ ap some (law.reads plain scalar)))))
