-- ===== src/Secrets/Tests.antt =====
-- Secrets under a toy cipher.
use final_aldaro.Common.{
  ◌+◌, ◌-◌, ◌≡◌, ◌≢◌, refl, ap, ◌∙◌, true, none, some, [], ◌∷◌, ◌>>=◌, map, All, arith, inl,
}
use final_aldaro.Hooks.Address.{starts_with}
use final_aldaro.Secrets.Crypto.{
  Bytes, Cipher, is_empty, encrypt_secret, encrypt_under, decrypt_secret, decrypt_under, open_parts,
  split_colon,
}
use final_aldaro.Secrets.RoundTrip.{IsCipher, decrypt_secret-encrypt_secret}

-- The body is the text, the tag is the key, and digits are codes from 100 on.
abbrev toy : Cipher
toy = record {
  production = true;
  derived_key = some 7;
  legacy_key = none;
  iv = 1 ∷ 2 ∷ [];
  seal = λ key iv plain. (key ∷ [], plain);
  unseal = λ key iv tag body. some body;
  to_utf8 = λ plain. plain;
  from_utf8 = λ bytes. bytes;
  to_base64 = map (λ b. b + 100);
  from_base64 = map (λ d. d - 100);
}

toy_decodes : (b : Bytes) → toy.from_base64 (toy.to_base64 b) ≡ b
toy_decodes [] = refl
toy_decodes (x ∷ b) =
    let same : x + 100 - 100 ≡ x = omega arith in
    ap (λ y. y ∷ toy.from_base64 (toy.to_base64 b)) same ∙ ap (λ ys. x ∷ ys) (toy_decodes b)

toy_digits : (b : Bytes) → All (λ d. d ≢ 58) (toy.to_base64 b)
toy_digits [] = tt
toy_digits (x ∷ b) = (λ e. absurd (omega (arith, e)), toy_digits b)

toy_encodes : (b : Bytes) → is_empty (toy.to_base64 b) ≡ is_empty b
toy_encodes [] = refl
toy_encodes (x ∷ b) = refl

toy-IsCipher : IsCipher toy
toy-IsCipher = record {
  opens = λ key iv plain. refl;
  tagged = λ key iv plain. refl;
  covered = λ key iv plain. refl;
  reads = λ plain scalar. refl;
  writes = λ plain. refl;
  decodes = toy_decodes;
  plain_digits = toy_digits;
  encodes = toy_encodes;
  seeded = refl;
}

-- An empty secret is written, and refused when it is read.
empty_secret : (encrypt_secret toy [] >>= decrypt_secret toy) ≡ none
unfolding encrypt_secret encrypt_under decrypt_secret decrypt_under open_parts split_colon
    starts_with
empty_secret = refl

decrypt_secret-encrypt_secret_example :
    (encrypt_secret toy (104 ∷ 58 ∷ 105 ∷ []) >>= decrypt_secret toy) ≡ some (104 ∷ 58 ∷ 105 ∷ [])
decrypt_secret-encrypt_secret_example =
    decrypt_secret-encrypt_secret toy 7 (104 ∷ 58 ∷ 105 ∷ []) toy-IsCipher refl refl
      (inl (omega arith), (inl (omega arith), (inl (omega arith), tt)))
