-- ===== src/Common/Table.antt =====
-- A table of the database as the list of its rows, and the client's queries: `findFirst`,
-- `findMany`, `count`, `updateMany`, `update` (which throws where no row fits), `upsert`,
-- `deleteMany`. A `where` clause is a test on rows.
use Prim.Native.Nat.{ℕ, suc}
use mathlib.Core.Path.{◌≡◌, subst}
use mathlib.Core.Logic.{inl, inr}
use mathlib.Core.Bool.{Bool, true, false, ◌||◌}
use mathlib.Core.Option.{Option, none, some}
use mathlib.Core.List.{List, [], ◌∷◌}
use native.Mathlib.Omega.{arith}
use final_aldaro.Common.Tests.{ltb, if◌then◌else◌, Bool-cases}
use final_aldaro.Common.Lists.{All}

module _ {ℓ} {A : Type ℓ} where
  abbrev pub any : (A → Bool) → List A → Bool
  any p [] = false
  any p (x ∷ xs) = p x || any p xs

  abbrev pub find_first : (A → Bool) → List A → Option A
  find_first p [] = none
  find_first p (x ∷ xs) = if p x then some x else find_first p xs

  abbrev pub find_many : (A → Bool) → List A → List A
  find_many p [] = []
  find_many p (x ∷ xs) = if p x then x ∷ find_many p xs else find_many p xs

  abbrev pub count : (A → Bool) → List A → ℕ
  count p [] = 0
  count p (x ∷ xs) = if p x then suc (count p xs) else count p xs

  abbrev pub update_many : (A → Bool) → (A → A) → List A → List A
  update_many p f [] = []
  update_many p f (x ∷ xs) = (if p x then f x else x) ∷ update_many p f xs

  abbrev pub delete_many : (A → Bool) → List A → List A
  delete_many p [] = []
  delete_many p (x ∷ xs) = if p x then delete_many p xs else x ∷ delete_many p xs

  -- `none` is the client's error P2025, record not found.
  abbrev pub update : (A → Bool) → (A → A) → List A → Option (List A)
  update p f xs = if any p xs then some (update_many p f xs) else none

  -- The first row that fits is changed, or a new row is added at the end.
  abbrev pub upsert : (A → Bool) → (A → A) → A → List A → List A
  upsert p f new [] = new ∷ []
  upsert p f new (x ∷ xs) = if p x then f x ∷ xs else x ∷ upsert p f new xs

  -- `orderBy: { key: 'asc' }`; rows with equal keys keep their order.
  abbrev pub insert_by : (A → ℕ) → A → List A → List A
  insert_by key x [] = x ∷ []
  insert_by key x (y ∷ ys) = if ltb (key y) (key x) then y ∷ insert_by key x ys else x ∷ y ∷ ys

  abbrev pub order_by : (A → ℕ) → List A → List A
  order_by key [] = []
  order_by key (x ∷ xs) = insert_by key x (order_by key xs)

  -- `findFirst` with `orderBy: { key: 'desc' }`: of rows with equal keys, the first.
  abbrev pub max_by : (A → ℕ) → List A → Option A
  max_by key [] = none
  max_by key (x ∷ xs) = elim (max_by key xs) [
    | none ↦ some x
    | some y ↦ if ltb (key x) (key y) then some y else some x
  ]

module _ {ℓ κ μ} {A : Type ℓ} (P : A → Type κ) (Q : A → Type μ) where
  -- A property of the rows after an update follows from one of the rows before it.
  pub All-update_many :
      (p : A → Bool) (f : A → A) (xs : List A)
      → ((x : A) → P x → p x ≡ true → Q (f x))
      → ((x : A) → P x → p x ≡ false → Q x)
      → All P xs
      → All Q (update_many p f xs)
  All-update_many p f [] hit miss h = tt
  All-update_many p f (x ∷ xs) hit miss h =
      let rest = All-update_many p f xs hit miss h.1 in
      elim (Bool-cases (p x)) [
        | inl e ↦ rw e (hit x h.0 e, rest)
        | inr e ↦ rw e (miss x h.0 e, rest)
      ]

module _ {ℓ κ} {A : Type ℓ} (P : A → Type κ) where
  pub All-find_many : (p : A → Bool) (xs : List A) → All P xs → All P (find_many p xs)
  All-find_many p [] h = tt
  All-find_many p (x ∷ xs) h = ground (arith, All-find_many p xs h.1)

  -- What holds of the rows that are found holds of every row that fits.
  pub All-fits :
      (p : A → Bool) (xs : List A) → All P (find_many p xs) → All (λ x. p x ≡ true → P x) xs
  All-fits p [] h = tt
  All-fits p (x ∷ xs) h = elim (Bool-cases (p x)) [
    | inl e ↦
        let both : All P (x ∷ find_many p xs) = rw e at h in (λ _. both.0, All-fits p xs both.1)
    | inr e ↦
        let rest : All P (find_many p xs) = rw e at h in
        (λ hit. absurd (ground arith), All-fits p xs rest)
  ]

  pub All-insert_by :
      (key : A → ℕ) (x : A) (xs : List A) → P x → All P xs → All P (insert_by key x xs)
  All-insert_by key x [] h k = (h, tt)
  All-insert_by key x (y ∷ ys) h k = ground (arith, All-insert_by key x ys h k.1)

  pub All-order_by : (key : A → ℕ) (xs : List A) → All P xs → All P (order_by key xs)
  All-order_by key [] h = tt
  All-order_by key (x ∷ xs) h = All-insert_by key x (order_by key xs) h.0 (All-order_by key xs h.1)

  pub All-upsert :
      (p : A → Bool) (f : A → A) (new : A) (xs : List A)
      → ((x : A) → P x → p x ≡ true → P (f x))
      → P new
      → All P xs
      → All P (upsert p f new xs)
  All-upsert p f new [] change add h = (add, tt)
  All-upsert p f new (x ∷ xs) change add h =
      let rest = All-upsert p f new xs change add h.1 in
      elim (Bool-cases (p x)) [ inl e ↦ rw e (change x h.0 e, h.1) | inr e ↦ rw e (h.0, rest) ]

  pub All-find_first :
      (p : A → Bool) (xs : List A) (x : A) → All P xs → find_first p xs ≡ some x → P x
  All-find_first p [] x h e = cc
  All-find_first p (y ∷ xs) x h e = elim (Bool-cases (p y)) [
    | inl hit ↦ let same : y ≡ x = ground arith in subst P same h.0
    | inr miss ↦ All-find_first p xs x h.1 (ground arith)
  ]

pub All-delete_many {ℓ κ μ} :
    {A : Type ℓ} (P : A → Type κ) (Q : A → Type μ) (p : A → Bool) (xs : List A)
    → ((x : A) → P x → p x ≡ false → Q x)
    → All P xs
    → All Q (delete_many p xs)
All-delete_many P Q p [] keep h = tt
All-delete_many P Q p (x ∷ xs) keep h =
    let rest = All-delete_many P Q p xs keep h.1 in
    elim (Bool-cases (p x)) [ inl e ↦ rw e rest | inr e ↦ rw e (keep x h.0 e, rest) ]
