-- ===== src/Base/Sort.antt =====
-- `sort_by` (stable), `sort_unstable` on numbers, `dedup`.
use wend_rag.Base.Lists.{length, Any, All}
use wend_rag.Base.Tests.{Bool-cases, leb, leb→le, ==_iff, ◌==◌, if◌then◌else◌}
use Prim.Native.Nat.{ℕ, suc, ◌<◌}
use mathlib.Core.Path.{◌≡◌, refl}
use mathlib.Core.Logic.{◌⊎◌, inl, inr}
use mathlib.Core.Bool.{Bool, true, false}
use mathlib.Core.List.{List, [], ◌∷◌}
use native.Mathlib.Omega.{arith}

module _ {ℓ} {A : Type ℓ} (le : A → A → Bool) where
  pub insert : A → List A → List A
  insert a [] = a ∷ []
  insert a (x ∷ xs) = if le a x then a ∷ x ∷ xs else x ∷ insert a xs

  -- Stable: an item stands before the equal ones that came after it.
  unfoldable pub sort : List A → List A
  unfolding insert
  sort [] = []
  sort (x ∷ xs) = insert x (sort xs)

-- `Vec::dedup` on numbers: of equal neighbours the first stays.
unfoldable pub dedup : List ℕ → List ℕ
dedup [] = []
dedup (x ∷ xs) =
    let rest = dedup xs in elim xs [ [] ↦ x ∷ [] | y ∷ ys ↦ if x == y then rest else x ∷ rest ]

-- Each number is above the one before it.
abbrev pub Ascending : List ℕ → Type 0
Ascending [] = Unit
Ascending (x ∷ xs) = All (λ y. x < y) xs × Ascending xs

module _ {ℓ} {A : Type ℓ} (le : A → A → Bool) (P : A → Type 0) where
  Any-insert_self : (a : A) (xs : List A) → P a → Any P (insert le a xs)
  unfolding insert
  Any-insert_self a [] h = inl h
  Any-insert_self a (x ∷ xs) h = ground (arith, Any-insert_self a xs)

  Any-insert : (a : A) (xs : List A) → Any P xs → Any P (insert le a xs)
  unfolding insert
  Any-insert a (x ∷ xs) h = ground (arith, Any-insert a xs)
  Any-insert a [] h = elim h [ ]

  pub Any-sort : (xs : List A) → Any P xs → Any P (sort le xs)
  unfolding sort
  Any-sort [] h = elim h [ ]
  Any-sort (x ∷ xs) h = elim h [
    | inl p ↦ unfold sort in Any-insert_self x (sort le xs) p
    | inr p ↦ push (Any-sort xs p)
  ]
    where
      push : Any P (sort le xs) → Any P (insert le x (sort le xs))
      push = Any-insert x (sort le xs)

module _ {ℓ} {A : Type ℓ} (le : A → A → Bool) (P : A → Type 0) where
  All-insert : (a : A) (xs : List A) → P a → All P xs → All P (insert le a xs)
  unfolding insert
  All-insert a [] h k = (h, tt)
  All-insert a (x ∷ xs) h k = ground (arith, All-insert a xs)

  pub All-sort : (xs : List A) → All P xs → All P (sort le xs)
  unfolding sort
  All-sort [] h = tt
  All-sort (x ∷ xs) h = All-insert x (sort le xs) h.0 (All-sort xs h.1)

module _ {ℓ} {A : Type ℓ} (le : A → A → Bool) where
  length-insert : (a : A) (xs : List A) → length (insert le a xs) ≡ suc (length xs)
  unfolding insert
  length-insert a [] = refl
  length-insert a (x ∷ xs) = ground (arith, length-insert a xs)

  pub length-sort : (xs : List A) → length (sort le xs) ≡ length xs
  unfolding sort
  length-sort [] = refl
  length-sort (x ∷ xs) = omega (arith, length-insert x (sort le xs), length-sort xs)

  -- Each item is at most those behind it.
  abbrev pub IsSorted : List A → Type 0
  IsSorted [] = Unit
  IsSorted (x ∷ xs) = All (λ y. le x y ≡ true) xs × IsSorted xs

  module _ (total : (a b : A) → (le a b ≡ true) ⊎ (le b a ≡ true))
      (trans : (a b c : A) → le a b ≡ true → le b c ≡ true → le a c ≡ true) where
    All-le_trans :
        (a x : A) (xs : List A)
        → le a x ≡ true
        → All (λ y. le x y ≡ true) xs
        → All (λ y. le a y ≡ true) xs
    All-le_trans a x [] h k = tt
    All-le_trans a x (y ∷ xs) h k = (trans a x y h k.0, All-le_trans a x xs h k.1)

    insert-IsSorted : (a : A) (xs : List A) → IsSorted xs → IsSorted (insert le a xs)
    unfolding insert
    insert-IsSorted a [] h = (tt, tt)
    insert-IsSorted a (x ∷ xs) h = elim (Bool-cases (le a x)) [
      | inl e ↦ rw e ((e, All-le_trans a x xs e h.0), h)
      | inr e ↦ rw e (
        All-insert le (λ y. le x y ≡ true) a xs (ground (arith, total a x)) h.0,
        insert-IsSorted a xs h.1,
      )
    ]

    pub sort-IsSorted : (xs : List A) → IsSorted (sort le xs)
    unfolding sort
    sort-IsSorted [] = tt
    sort-IsSorted (x ∷ xs) = insert-IsSorted x (sort le xs) (sort-IsSorted xs)

module _ (P : ℕ → Type 0) where
  pub All-dedup : (xs : List ℕ) → All P xs → All P (dedup xs)
  unfolding dedup
  All-dedup [] h = tt
  All-dedup (x ∷ []) h = h
  All-dedup (x ∷ y ∷ ys) h = ground (arith, All-dedup (y ∷ ys) h.1)

  pub Any-dedup : (xs : List ℕ) → Any P xs → Any P (dedup xs)
  unfolding dedup
  Any-dedup [] h = elim h [ ]
  Any-dedup (x ∷ []) h = h
  Any-dedup (x ∷ y ∷ ys) h = elim (Bool-cases (x == y)) [
    | inl e ↦ rw e (same (Any-dedup (y ∷ ys)) h ((==_iff x y).0 e))
    | inr e ↦ rw e (other (Any-dedup (y ∷ ys)) h)
  ]
    where
      same :
          (Any P (y ∷ ys) → Any P (dedup (y ∷ ys)))
          → Any P (x ∷ y ∷ ys)
          → x ≡ y
          → Any P (dedup (y ∷ ys))
      same ih (inl p) e = ih (inl (rw e at p))
      same ih (inr p) e = ih p

      other :
          (Any P (y ∷ ys) → Any P (dedup (y ∷ ys)))
          → Any P (x ∷ y ∷ ys)
          → P x ⊎ Any P (dedup (y ∷ ys))
      other ih (inl p) = inl p
      other ih (inr p) = inr (ih p)

All-lt_of_le : (x y : ℕ) (xs : List ℕ) → x < y → All (λ z. leb y z ≡ true) xs → All (λ z. x < z) xs
All-lt_of_le x y [] h k = tt
All-lt_of_le x y (z ∷ xs) h k = (omega (arith, leb→le y z k.0), All-lt_of_le x y xs h k.1)

above : (x y : ℕ) → leb x y ≡ true → (x == y) ≡ false → x < y
above x y h k = ground arith

-- `sort_unstable` and then `dedup` leave an ascending list.
pub dedup-Ascending : (xs : List ℕ) → IsSorted leb xs → Ascending (dedup xs)
unfolding dedup
dedup-Ascending [] h = tt
dedup-Ascending (x ∷ []) h = (tt, tt)
dedup-Ascending (x ∷ y ∷ ys) h = elim (Bool-cases (x == y)) [
  | inl e ↦ rw e (dedup-Ascending (y ∷ ys) h.1)
  | inr e ↦ rw e (
    All-dedup (λ z. x < z) (y ∷ ys)
        (above x y h.0.0 e, All-lt_of_le x y ys (above x y h.0.0 e) h.1.0),
    dedup-Ascending (y ∷ ys) h.1,
  )
]

pub leb_total : (a b : ℕ) → (leb a b ≡ true) ⊎ (leb b a ≡ true)
leb_total a b = ground arith

pub leb_trans : (a b c : ℕ) → leb a b ≡ true → leb b c ≡ true → leb a c ≡ true
leb_trans a b c h k = ground arith
