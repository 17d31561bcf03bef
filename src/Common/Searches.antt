-- ===== src/Common/Searches.antt =====
-- What a query finds in a table, before and after an update of other rows and of its own.
use mathlib.Core.Path.{◌≡◌, refl, ap, ◌∙◌}
use mathlib.Core.Logic.{inl, inr}
use mathlib.Core.Bool.{Bool, true, false}
use mathlib.Core.Option.{none, some}
use mathlib.Core.List.{List, [], ◌∷◌}
use native.Mathlib.Omega.{arith}
use final_aldaro.Common.Tests.{ltb, Bool-cases}
use final_aldaro.Common.Lists.{All, length}
use final_aldaro.Common.Table.{any, find_first, find_many, count, update_many, delete_many, upsert}

module _ {ℓ} {A : Type ℓ} where
  pub find_first-fits : (p : A → Bool) (xs : List A) (x : A) → find_first p xs ≡ some x → p x ≡ true
  find_first-fits p [] x e = cc
  find_first-fits p (y ∷ xs) x e = ground (arith, find_first-fits p xs x)

  pub find_first-none :
      (p : A → Bool) (xs : List A) → All (λ x. p x ≡ false) xs → find_first p xs ≡ none
  find_first-none p [] h = refl
  find_first-none p (y ∷ xs) h = ground (arith, find_first-none p xs h.1)

  pub any-none : (p : A → Bool) (xs : List A) → any p xs ≡ false → All (λ x. p x ≡ false) xs
  any-none p [] h = tt
  any-none p (x ∷ xs) h = ground (arith, any-none p xs)

  pub All-find_many-fits : (p : A → Bool) (xs : List A) → All (λ x. p x ≡ true) (find_many p xs)
  All-find_many-fits p [] = tt
  All-find_many-fits p (y ∷ xs) = ground (arith, All-find_many-fits p xs)

  -- `upsert` is found by what fits the new row, and leaves every other search alone.
  pub find_first-upsert :
      (p : A → Bool) (f : A → A) (new : A) (xs : List A)
      → p new ≡ true
      → ((x : A) → p x ≡ true → p (f x) ≡ true)
      → (find_first p xs ≡ none)
      → find_first p (upsert p f new xs) ≡ some new
  find_first-upsert p f new [] fits keep absent = rw fits
  find_first-upsert p f new (x ∷ xs) fits keep absent =
      ground (arith, find_first-upsert p f new xs fits keep)

  pub find_first-upsert_other :
      (p q : A → Bool) (f : A → A) (new : A) (xs : List A)
      → q new ≡ false
      → ((x : A) → p x ≡ true → (q x ≡ false) × (q (f x) ≡ false))
      → find_first q (upsert p f new xs) ≡ find_first q xs
  find_first-upsert_other p q f new [] other keep = rw other
  find_first-upsert_other p q f new (x ∷ xs) other keep =
      ground (arith, keep x, find_first-upsert_other p q f new xs other keep)

  pub find_first-absent :
      (p : A → Bool) (xs : List A) → find_first p xs ≡ none → All (λ x. p x ≡ false) xs
  find_first-absent p [] h = tt
  find_first-absent p (x ∷ xs) h = ground (arith, find_first-absent p xs)

  -- A change of rows that a search passes by, before and after, leaves the search alone.
  pub find_first-update_many_other :
      (p q : A → Bool) (f : A → A) (xs : List A)
      → ((x : A) → p x ≡ true → (q x ≡ false) × (q (f x) ≡ false))
      → find_first q (update_many p f xs) ≡ find_first q xs
  find_first-update_many_other p q f [] other = refl
  find_first-update_many_other p q f (x ∷ xs) other =
      ground (arith, other x, find_first-update_many_other p q f xs other)

  pub find_first-update_many :
      (p : A → Bool) (f : A → A) (xs : List A) (e : A)
      → ((x : A) → p (f x) ≡ p x)
      → find_first p xs ≡ some e
      → find_first p (update_many p f xs) ≡ some (f e)
  find_first-update_many p f [] e same found = cc
  find_first-update_many p f (x ∷ xs) e same found =
      ground (arith, same x, find_first-update_many p f xs e same)

  -- A row that an update passes by is still the one that is found.
  pub find_first-update_many_past :
      (p q : A → Bool) (f : A → A) (xs : List A) (e : A)
      → ((x : A) → q (f x) ≡ q x)
      → p e ≡ false
      → find_first q xs ≡ some e
      → find_first q (update_many p f xs) ≡ some e
  find_first-update_many_past p q f [] e same miss found = found
  find_first-update_many_past p q f (x ∷ xs) e same miss found =
      let rest = find_first-update_many_past p q f xs e same miss in
      elim (Bool-cases (q x)) [
        | inl hit ↦
            let own : x ≡ e = ground arith in
            let passed : p x ≡ false = ap p own ∙ miss in rw passed (rw hit (ap some own))
        | inr other ↦ elim (Bool-cases (p x)) [
          | inl changed ↦ rw changed (rw (same x) (rw other (rest (ground arith))))
          | inr kept ↦ rw kept (rw other (rest (ground arith)))
        ]
      ]

  -- `Map.set`: the entry that is set is the one that is found.
  pub find_first-set :
      (p : A → Bool) (a : A) (xs : List A)
      → p a ≡ true
      → find_first p (upsert p (λ _. a) a xs) ≡ some a
  find_first-set p a [] own = rw own refl
  find_first-set p a (x ∷ xs) own = elim (Bool-cases (p x)) [
    | inl hit ↦ rw hit (rw own refl)
    | inr miss ↦ rw miss (rw miss (find_first-set p a xs own))
  ]

  pub find_first-delete_many : (p : A → Bool) (xs : List A) → find_first p (delete_many p xs) ≡ none
  find_first-delete_many p [] = refl
  find_first-delete_many p (x ∷ xs) = ground (arith, find_first-delete_many p xs)

  -- A row that is found, and that fits another test, is found among the rows that fit it.
  pub find_first-find_many :
      (q p : A → Bool) (xs : List A) (x : A)
      → p x ≡ true
      → find_first q xs ≡ some x
      → find_first q (find_many p xs) ≡ some x
  find_first-find_many q p [] x fits found = found
  find_first-find_many q p (y ∷ xs) x fits found =
      let rest = find_first-find_many q p xs x fits in
      elim (Bool-cases (q y)) [
        | inl hit ↦
            let same : y ≡ x = ground arith in
            let here : p y ≡ true = ap p same ∙ fits in rw here (rw hit (ap some same))
        | inr miss ↦ elim (Bool-cases (p y)) [
          | inl kept ↦ rw kept (rw miss (rest (ground arith)))
          | inr dropped ↦ rw dropped (rest (ground arith))
        ]
      ]

  pub length-find_many : (p : A → Bool) (xs : List A) → length (find_many p xs) ≡ count p xs
  length-find_many p [] = refl
  length-find_many p (x ∷ xs) = ground (arith, length-find_many p xs)

  pub count-any : (p : A → Bool) (xs : List A) → ltb 0 (count p xs) ≡ any p xs
  count-any p [] = refl
  count-any p (x ∷ xs) = ground (arith, count-any p xs)
