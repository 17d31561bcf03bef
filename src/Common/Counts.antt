-- ===== src/Common/Counts.antt =====
-- How many rows of a table pass a test: under wider tests, new rows and updates.
use Prim.Native.Nat.{ℕ, ◌+◌, ◌≤◌}
use mathlib.Core.Path.{◌≡◌, refl}
use mathlib.Core.Logic.{◌≢◌, inl, inr}
use mathlib.Core.Bool.{Bool, true, false, ◌||◌}
use mathlib.Core.List.{List, [], ◌∷◌, ◌++◌}
use native.Mathlib.Omega.{arith}
use final_aldaro.Common.Tests.{◌==◌, Bool-cases}
use final_aldaro.Common.Lists.{All, All-map}
use final_aldaro.Common.Table.{count, update_many}
use final_aldaro.Common.Keys.{Distinct}

module _ {ℓ} {A : Type ℓ} where
  pub count_mono :
      (p q : A → Bool) (xs : List A) → ((x : A) → p x ≡ true → q x ≡ true) → count p xs ≤ count q xs
  count_mono p q [] h = omega arith
  count_mono p q (x ∷ xs) h = ground (arith, h x, count_mono p q xs h)

  pub count-or-le :
      (p q : A → Bool) (xs : List A) → count (λ x. p x || q x) xs ≤ count p xs + count q xs
  count-or-le p q [] = omega arith
  count-or-le p q (x ∷ xs) = ground (arith, count-or-le p q xs)

  pub count-append_one :
      (p : A → Bool) (xs : List A) (x : A) → count p (xs ++ x ∷ []) ≤ count p xs + 1
  count-append_one p [] x = ground arith
  count-append_one p (y ∷ xs) x = ground (arith, count-append_one p xs x)

  pub count-none : (p : A → Bool) (xs : List A) → All (λ x. p x ≡ false) xs → count p xs ≡ 0
  count-none p [] h = refl
  count-none p (x ∷ xs) h = ground (arith, count-none p xs h.1)

  -- At most one row has a given value of a unique key.
  pub count-Distinct-le :
      (key : A → ℕ) (k : ℕ) (xs : List A) → Distinct key xs → count (λ x. key x == k) xs ≤ 1
  count-Distinct-le key k [] d = omega arith
  count-Distinct-le key k (x ∷ xs) d = elim (Bool-cases (key x == k)) [
    | inr miss ↦ ground (arith, count-Distinct-le key k xs d.1)
    | inl hit ↦
        let others =
          All-map (λ y. key y ≢ key x) (λ y. (key y == k) ≡ false) xs (λ y ne. ground arith) d.0 in
        ground (arith, count-none (λ y. key y == k) xs others)
  ]

  pub count-update_many :
      (p q : A → Bool) (f : A → A) (xs : List A)
      → ((x : A) → p x ≡ true → q (f x) ≡ q x)
      → count q (update_many p f xs) ≡ count q xs
  count-update_many p q f [] same = refl
  count-update_many p q f (x ∷ xs) same = ground (arith, same x, count-update_many p q f xs same)

  -- An update after which no more rows pass.
  pub count_update_many-le :
      (p q : A → Bool) (f : A → A) (xs : List A)
      → ((x : A) → q (f x) ≡ true → q x ≡ true)
      → count q (update_many p f xs) ≤ count q xs
  count_update_many-le p q f [] less = omega arith
  count_update_many-le p q f (x ∷ xs) less =
      ground (arith, less x, count_update_many-le p q f xs less)

  pub count-append_miss :
      (p : A → Bool) (xs : List A) (x : A) → p x ≡ false → count p (xs ++ x ∷ []) ≡ count p xs
  count-append_miss p [] x miss = ground arith
  count-append_miss p (y ∷ xs) x miss = ground (arith, count-append_miss p xs x miss)
