-- ===== src/Base/TakeSorted.antt =====
-- The beginning of a sorted list.
use wend_rag.Base.Lists.{length, take, All, All-map, Any, Any-mono}
use wend_rag.Base.Sort.{IsSorted}
use Prim.Native.Nat.{ℕ, zero, suc, ◌≤◌}
use mathlib.Core.Path.{◌≡◌, refl, ap}
use mathlib.Core.Logic.{◌⊎◌, inl, inr}
use mathlib.Core.Bool.{Bool, true}
use mathlib.Core.List.{List, [], ◌∷◌, map}
use native.Mathlib.Omega.{arith}

module _ {A : Type 0} where
  pub Any-All : (P Q : A → Type 0) (xs : List A) → All P xs → Any Q xs → Any (λ x. P x × Q x) xs
  Any-All P Q [] h k = absurd k
  Any-All P Q (x ∷ xs) h (inl q) = inl (h.0, q)
  Any-All P Q (x ∷ xs) h (inr k) = inr (Any-All P Q xs h.1 k)

  pub Any-map :
      (P Q : A → Type 0) (g : A → A)
      → ((x : A) → P x → Q (g x))
      → (xs : List A) → Any P xs
      → Any Q (map g xs)
  Any-map P Q g f [] h = absurd h
  Any-map P Q g f (x ∷ xs) (inl p) = inl (f x p)
  Any-map P Q g f (x ∷ xs) (inr h) = inr (Any-map P Q g f xs h)

  module _ (le : A → A → Bool) where
    -- Of a sorted list an item is taken, or the list taken is full and none of it is behind the item.
    pub take-ahead :
        (P : A → Type 0) (n : ℕ) (xs : List A)
        → IsSorted le xs
        → Any P xs
        → Any P (take n xs)
          ⊎ ((length (take n xs) ≡ n) × (x : A) × P x × All (λ y. le y x ≡ true) (take n xs))
    take-ahead P n [] s h = absurd h
    take-ahead P zero (x ∷ xs) s h = let (y, p, q) = some_of (x ∷ xs) h in inr (refl, y, p, q)
      where
        some_of : (ys : List A) → Any P ys → (y : A) × P y × All (λ z. le z y ≡ true) []
        some_of [] k = absurd k
        some_of (y ∷ ys) (inl p) = (y, p, tt)
        some_of (y ∷ ys) (inr k) = some_of ys k
    take-ahead P (suc n) (x ∷ xs) s (inl p) = inl (inl p)
    take-ahead P (suc n) (x ∷ xs) s (inr h) =
        elim (take-ahead (λ y. (le x y ≡ true) × P y) n xs s.1
          (Any-All (λ y. le x y ≡ true) P xs s.0 h)) [
            | inl k ↦ inl (inr (Any-mono (λ y. (le x y ≡ true) × P y) P (λ y q. q.1) (take n xs) k))
            | inr k ↦ inr (ap suc k.0, k.1, k.2.1, (k.2.0, k.3))
          ]

    All-take : (P : A → Type 0) (n : ℕ) (xs : List A) → All P xs → All P (take n xs)
    All-take P zero xs h = tt
    All-take P (suc n) [] h = tt
    All-take P (suc n) (x ∷ xs) h = (h.0, All-take P n xs h.1)

    pub take-IsSorted : (n : ℕ) (xs : List A) → IsSorted le xs → IsSorted le (take n xs)
    take-IsSorted zero xs h = tt
    take-IsSorted (suc n) [] h = tt
    take-IsSorted (suc n) (x ∷ xs) h =
        (All-take (λ y. le x y ≡ true) n xs h.0, take-IsSorted n xs h.1)

  pub IsSorted-mono :
      (le le' : A → A → Bool)
      → ((x y : A) → le x y ≡ true → le' x y ≡ true)
      → (xs : List A) → IsSorted le xs
      → IsSorted le' xs
  IsSorted-mono le le' f [] h = tt
  IsSorted-mono le le' f (x ∷ xs) h =
      (All-map (λ y q. f x y q) xs h.0, IsSorted-mono le le' f xs h.1)

  pub length-take-le : (n : ℕ) (xs : List A) → length (take n xs) ≤ n
  length-take-le zero xs = omega arith
  length-take-le (suc n) [] = omega arith
  length-take-le (suc n) (x ∷ xs) = omega (arith, length-take-le n xs)
