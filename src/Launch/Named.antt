-- ===== src/Launch/Named.antt =====
-- Images that name a tag, and images that do not.
use final_aldaro.Common.{
  ℕ, suc, ◌≡◌, refl, ap, false, none, some, [], ◌∷◌, ◌++◌, arith, length, take,
}
use final_aldaro.Secrets.Crypto.{Text, drop}
use final_aldaro.Launch.Image.{contains, last_index_of, split_image, parse_image, latest}

last_index_of-absent : (c : ℕ) (t : Text) → contains c t ≡ false → last_index_of c t ≡ none
unfolding last_index_of
last_index_of-absent c [] h = refl
last_index_of-absent c (d ∷ ds) h = ground (arith, last_index_of-absent c ds)

last_index_of-append :
    (c : ℕ) (s t : Text) → contains c t ≡ false → last_index_of c (s ++ c ∷ t) ≡ some (length s)
unfolding last_index_of
last_index_of-append c [] t h = ground (arith, last_index_of-absent c t h)
last_index_of-append c (d ∷ s) t h = ground (arith, last_index_of-append c s t h)

take-append : (s t : Text) → take (length s) (s ++ t) ≡ s
take-append [] t = refl
take-append (c ∷ s) t = ap (λ r. c ∷ r) (take-append s t)

drop-append : (c : ℕ) (s t : Text) → drop (suc (length s)) (s ++ c ∷ t) ≡ t
drop-append c [] t = refl
drop-append c (d ∷ s) t = drop-append c s t

-- An image written as a repository that is not empty, a colon and a tag without colons and slashes
-- is taken apart into that repository and that tag.
pub parse_image-append :
    (c : ℕ) (repo tag : Text)
    → contains 58 tag ≡ false
    → contains 47 tag ≡ false
    → parse_image (some ((c ∷ repo) ++ 58 ∷ tag)) ≡ some (record { repo = c ∷ repo; tag = tag })
unfolding parse_image split_image
parse_image-append c repo tag no_colon no_slash =
    rw (last_index_of-append 58 (c ∷ repo) tag no_colon)
      (rw (drop-append 58 repo tag) (rw no_slash (rw (take-append repo (58 ∷ tag)) (ground arith))))

-- Without a colon the whole text is the repository, and the tag is the latest one.
pub parse_image_untagged :
    (c : ℕ) (image : Text)
    → contains 58 (c ∷ image) ≡ false
    → parse_image (some (c ∷ image)) ≡ some (record { repo = c ∷ image; tag = latest })
unfolding parse_image split_image
parse_image_untagged c image h = rw (last_index_of-absent 58 (c ∷ image) h) refl
