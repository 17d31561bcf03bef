-- ===== src/Launch/Image.antt =====
-- How `launchWorkspaceInternal` of apps/api/src/services/workspaceService.ts takes a custom image apart: texts
-- are lists of character codes, 58 is `:` and 47 is `/`.
use final_aldaro.Common.{
  ℕ, suc, Bool, not, Option, none, some, [], ◌∷◌, ◌==◌, ◌&&◌, if◌then◌else◌, ltb, any, take,
}
use final_aldaro.Secrets.Crypto.{Text, is_empty, drop}

pub record Image : Type 0 where
  pub repo : Text
  pub tag : Text

abbrev pub contains : ℕ → Text → Bool
contains c = any (λ d. d == c)

-- `lastIndexOf`; `none` is -1.
unfoldable pub last_index_of : ℕ → Text → Option ℕ
last_index_of c [] = none
last_index_of c (d ∷ ds) = elim (last_index_of c ds) [
  | some i ↦ some (suc i)
  | none ↦ if d == c then some 0 else none
]

-- `latest`
abbrev pub latest : Text
latest = 108 ∷ 97 ∷ 116 ∷ 101 ∷ 115 ∷ 116 ∷ []

abbrev pub whole : Text → Image
whole image = record { repo = image; tag = latest }

unfoldable pub split_image : Text → Option ℕ → Image
split_image image none = whole image
split_image image (some i) =
    if ltb 0 i && not (contains 47 (drop (suc i) image))
    then record { repo = take i image; tag = drop (suc i) image }
    else whole image

-- An image that is missing or empty is no image.
unfoldable pub parse_image : Option Text → Option Image
parse_image none = none
parse_image (some image) =
    if is_empty image then none else some (split_image image (last_index_of 58 image))
