-- ===== src/Common/Keys.antt =====
-- Columns whose values differ from row to row, and rows that are pairwise in a relation: what the
-- unique indexes of the database promise, under its updates.
use Prim.Native.Nat.{ℕ, zero, suc}
use mathlib.Core.Path.{◌≡◌, refl, sym, subst, ◌∙◌}
use mathlib.Core.Logic.{◌≢◌, inl, inr}
use mathlib.Core.Bool.{Bool, true, false, ◌&&◌}
use mathlib.Core.Option.{some}
use mathlib.Core.List.{List, [], ◌∷◌, ◌++◌}
use native.Mathlib.Omega.{arith}
use final_aldaro.Common.Tests.{ltb, ◌==◌, if◌then◌else◌, Bool-cases}
use final_aldaro.Common.Lists.{All, All-map, All-append, All-both, All-take, take}
use final_aldaro.Common.Table.{
  any, find_first, find_many, delete_many, All-delete_many, All-find_many, update_many, upsert,
  All-update_many, All-upsert, All-find_first, insert_by, order_by, All-insert_by, All-order_by,
}

module _ {ℓ} {A : Type ℓ} where
  -- A column whose values differ from row to row.
  abbrev pub Distinct {κ} : {K : Type κ} → (A → K) → List A → Type (ℓ ⊔ κ)
  Distinct key [] = Unit
  Distinct key (x ∷ xs) = All (λ y. key y ≢ key x) xs × Distinct key xs

  none_fits :
      (k : ℕ) (key : A → ℕ) (q : A → Bool) (x : A) (xs : List A)
      → key x ≡ k
      → All (λ y. key y ≢ key x) xs
      → any (λ r. key r == k && q r) xs ≡ false
  none_fits k key q x [] e h = refl
  none_fits k key q x (y ∷ xs) e h = ground (arith, none_fits k key q x xs e h.1)

  -- Where some row with the key `k` passes a test, every row with that key does: there is one.
  pub Distinct-any :
      (k : ℕ) (key : A → ℕ) (q : A → Bool) (xs : List A)
      → Distinct key xs
      → any (λ r. key r == k && q r) xs ≡ true
      → All (λ r. key r ≡ k → q r ≡ true) xs
  Distinct-any k key q [] d e = tt
  Distinct-any k key q (x ∷ xs) d e = elim (Bool-cases (key x == k && q x)) [
    | inl hit ↦ (
      λ _. ground arith,
      All-map (λ y. key y ≢ key x) (λ y. key y ≡ k → q y ≡ true) xs (λ y ne same. ground arith) d.0,
    )
    | inr miss ↦ (
      λ same. ground (arith, none_fits k key q x xs same d.0),
      Distinct-any k key q xs d.1 (ground arith),
    )
  ]

  pub Distinct-update_many :
      (key : A → ℕ) (p : A → Bool) (f : A → A) (xs : List A)
      → ((x : A) → key (f x) ≡ key x)
      → Distinct key xs
      → Distinct key (update_many p f xs)
  Distinct-update_many key p f [] same d = tt
  Distinct-update_many key p f (x ∷ xs) same d =
      let head : key (if p x then f x else x) ≡ key x = ground (arith, same x) in
      (
        rw head (
            All-update_many (λ y. key y ≢ key x) (λ y. key y ≢ key x) p f xs
              (λ y ne _. rw (same y) ne) (λ y ne _. ne) d.0),
        Distinct-update_many key p f xs same d.1,
      )

  pub Distinct-find_many :
      (key : A → ℕ) (p : A → Bool) (xs : List A) → Distinct key xs → Distinct key (find_many p xs)
  Distinct-find_many key p [] d = tt
  Distinct-find_many key p (x ∷ xs) d =
      let rest = Distinct-find_many key p xs d.1 in
      elim (Bool-cases (p x)) [ inl e ↦ rw e (All-find_many _ p xs d.0, rest) | inr e ↦ rw e rest ]

  pub Distinct-delete_many :
      (key : A → ℕ) (p : A → Bool) (xs : List A) → Distinct key xs → Distinct key (delete_many p xs)
  Distinct-delete_many key p [] d = tt
  Distinct-delete_many key p (x ∷ xs) d =
      let rest = Distinct-delete_many key p xs d.1 in
      elim (Bool-cases (p x)) [
        | inl e ↦ rw e rest
        | inr e ↦ rw e (All-delete_many _ _ p xs (λ y ne _. ne) d.0, rest)
      ]

  -- The row that is found under a unique key is the only one with it.
  pub find_first_unique :
      (key : A → ℕ) (k : ℕ) (xs : List A) (e : A)
      → Distinct key xs
      → find_first (λ x. key x == k) xs ≡ some e
      → All (λ x. key x ≡ k → x ≡ e) xs
  find_first_unique key k [] e d found = tt
  find_first_unique key k (x ∷ xs) e d found = elim (Bool-cases (key x == k)) [
    | inl hit ↦
        let same : x ≡ e = ground arith in
        (λ _. same, All-map (λ y. key y ≢ key x) _ xs (λ y ne own. absurd (ne (ground arith))) d.0)
    | inr miss ↦ (λ own. absurd (ground arith), find_first_unique key k xs e d.1 (ground arith))
  ]

  pub Distinct-upsert :
      (key : A → ℕ) (k : ℕ) (f : A → A) (new : A) (xs : List A)
      → key new ≡ k
      → ((x : A) → key (f x) ≡ key x)
      → Distinct key xs
      → Distinct key (upsert (λ x. key x == k) f new xs)
  Distinct-upsert key k f new [] fits same d = (tt, tt)
  Distinct-upsert key k f new (x ∷ xs) fits same d =
      let rest = Distinct-upsert key k f new xs fits same d.1 in
      elim (Bool-cases (key x == k)) [
        | inl e ↦ rw e (rw (same x) d)
        | inr e ↦ rw e (
          All-upsert (λ y. key y ≢ key x) (λ y. key y == k) f new xs (λ y ne _. rw (same y) ne)
              (ground arith) d.0,
          rest,
        )
      ]

  -- `Map.set` keeps one entry to a key.
  pub Distinct-set :
      (key : A → ℕ) (k : ℕ) (a : A) (xs : List A)
      → key a ≡ k
      → Distinct key xs
      → Distinct key (upsert (λ x. key x == k) (λ _. a) a xs)
  Distinct-set key k a [] own d = (tt, tt)
  Distinct-set key k a (x ∷ xs) own d =
      let rest = Distinct-set key k a xs own d.1 in
      elim (Bool-cases (key x == k)) [
        | inl e ↦
            let same : key x ≡ key a = ground arith in
            rw e (All-map _ _ xs (λ y ne eq. ne (eq ∙ sym same)) d.0, d.1)
        | inr e ↦ rw e (
          All-upsert (λ y. key y ≢ key x) (λ y. key y == k) (λ _. a) a xs (λ y _ _. ground arith)
              (ground arith) d.0,
          rest,
        )
      ]

  pub Distinct-append :
      (key : A → ℕ) (xs : List A) (new : A)
      → All (λ y. key y ≢ key new) xs
      → Distinct key xs
      → Distinct key (xs ++ new ∷ [])
  Distinct-append key [] new h d = (tt, tt)
  Distinct-append key (x ∷ xs) new h d = (
    All-append (λ y. key y ≢ key x) xs (new ∷ []) d.0 (λ e. h.0 (sym e), tt),
    Distinct-append key xs new h.1 d.1,
  )

  found_first :
      (key : A → ℕ) (x y : A) (ys : List A)
      → key y ≢ key x
      → find_first (λ r. key r == key y) ys ≡ some y
      → find_first (λ r. key r == key y) (x ∷ ys) ≡ some y
  found_first key x y ys other h = ground arith

  -- A unique key finds its own row.
  pub find_first-Distinct :
      (key : A → ℕ) (xs : List A)
      → Distinct key xs
      → All (λ y. find_first (λ r. key r == key y) xs ≡ some y) xs
  find_first-Distinct key [] d = tt
  find_first-Distinct key (x ∷ xs) d = (
    ground arith,
    All-map _ _ xs (λ y h. found_first key x y xs h.0 h.1)
        (All-both _ _ xs d.0 (find_first-Distinct key xs d.1)),
  )

module _ {ℓ κ} {A : Type ℓ} (R : A → A → Type κ) where
  -- Every row is related to every later row.
  abbrev pub Pairwise : List A → Type κ
  Pairwise [] = Unit
  Pairwise (x ∷ xs) = All (R x) xs × Pairwise xs

  -- A row that is added or put in place of another keeps the relation, if it stands in it to all.
  pub Pairwise-upsert :
      (p : A → Bool) (f : A → A) (new : A) (xs : List A)
      → All (λ y. R y new × ((x : A) → R y (f x) × R (f x) y)) xs
      → Pairwise xs
      → Pairwise (upsert p f new xs)
  Pairwise-upsert p f new [] g h = (tt, tt)
  Pairwise-upsert p f new (x ∷ xs) g h =
      let rest = Pairwise-upsert p f new xs g.1 h.1 in
      elim (Bool-cases (p x)) [
        | inl hit ↦ rw hit (All-map _ (R (f x)) xs (λ y r. (r.1 x).1) g.1, h.1)
        | inr miss ↦ rw miss (All-upsert (R x) p f new xs (λ y _ _. (g.0.1 y).0) g.0.0 h.0, rest)
      ]

  -- So does a change of rows that keeps the relation on both sides.
  pub Pairwise-update_many :
      (p : A → Bool) (f : A → A) (xs : List A)
      → ((x y : A) → R x y → R x (f y))
      → ((x y : A) → R x y → R (f x) y)
      → Pairwise xs
      → Pairwise (update_many p f xs)
  Pairwise-update_many p f [] right left h = tt
  Pairwise-update_many p f (x ∷ xs) right left h =
      let rest = Pairwise-update_many p f xs right left h.1 in
      let to_rest = All-update_many (R x) (R x) p f xs (λ y r _. right x y r) (λ y r _. r) h.0 in
      elim (Bool-cases (p x)) [
        | inl hit ↦ rw hit (All-map _ (R (f x)) _ (λ y. left x y) to_rest, rest)
        | inr miss ↦ rw miss (to_rest, rest)
      ]

  -- The first row that fits stands in a symmetric relation to every row that does not.
  pub Pairwise-find_first :
      (p : A → Bool) (xs : List A) (e : A)
      → ((x y : A) → R x y → R y x)
      → Pairwise xs
      → find_first p xs ≡ some e
      → All (λ y. p y ≡ false → R e y) xs
  Pairwise-find_first p [] e flip h found = tt
  Pairwise-find_first p (x ∷ xs) e flip h found = elim (Bool-cases (p x)) [
    | inl hit ↦
        let same : x ≡ e = ground arith in
        (
          λ miss. absurd (ground arith),
          subst (λ z. All (λ y. p y ≡ false → R z y) xs) same (All-map _ _ xs (λ y r _. r) h.0),
        )
    | inr miss ↦
        let later : find_first p xs ≡ some e = ground arith in
        (
          λ _. flip x e (All-find_first (R x) p xs e h.0 later),
          Pairwise-find_first p xs e flip h.1 later,
        )
  ]

module _ {ℓ} {A : Type ℓ} where
  pub Distinct-take :
      (key : A → ℕ) (n : ℕ) (xs : List A) → Distinct key xs → Distinct key (take n xs)
  Distinct-take key zero xs d = tt
  Distinct-take key (suc n) [] d = tt
  Distinct-take key (suc n) (x ∷ xs) d =
      (All-take (λ y. key y ≢ key x) n xs d.0, Distinct-take key n xs d.1)

  Distinct-insert_by :
      (key column : A → ℕ) (x : A) (xs : List A)
      → All (λ y. key y ≢ key x) xs
      → Distinct key xs
      → Distinct key (insert_by column x xs)
  Distinct-insert_by key column x [] apart d = (tt, tt)
  Distinct-insert_by key column x (y ∷ ys) apart d =
      let rest = Distinct-insert_by key column x ys apart.1 d.1 in
      let here = All-insert_by (λ z. key z ≢ key y) column x ys (λ e. apart.0 (sym e)) d.0 in
      elim (Bool-cases (ltb (column y) (column x))) [
        | inl e ↦ rw e (here, rest)
        | inr e ↦ rw e (apart, d)
      ]

  pub Distinct-order_by :
      (key column : A → ℕ) (xs : List A) → Distinct key xs → Distinct key (order_by column xs)
  Distinct-order_by key column [] d = tt
  Distinct-order_by key column (x ∷ xs) d =
      Distinct-insert_by key column x (order_by column xs)
        (All-order_by (λ y. key y ≢ key x) column xs d.0) (Distinct-order_by key column xs d.1)
