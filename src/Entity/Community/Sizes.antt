-- ===== src/Entity/Community/Sizes.antt =====
-- The lists that entity/community.rs updates by index, and how often a community stands in one.
use wend_rag.Base.{
  ℕ, zero, suc, ◌+◌, ◌-◌, ◌≤◌, ◌<◌, List, [], ◌∷◌, some, false, ◌==◌, ==_iff, if◌then◌else◌, length,
  get_elem?, All, ◌≡◌, ◌≢◌, refl, sym, ap, ◌∙◌, subst, arith, Bool-cases, inl, inr,
}
use wend_rag.Entity.Community.{update_at, decrement_at, replicate, range_from}

-- 1 where the two are equal.
abbrev pub hit : ℕ → ℕ → ℕ
hit d x = if x == d then 1 else 0

-- How many of the list are `d`.
abbrev pub tally : ℕ → List ℕ → ℕ
tally d [] = 0
tally d (x ∷ xs) = hit d x + tally d xs

pub tally-pos : (d i : ℕ) (xs : List ℕ) → get_elem? xs i ≡ some d → 1 ≤ tally d xs
tally-pos d i [] h = cc
tally-pos d zero (x ∷ xs) h = let same : x ≡ d = some-injective h in ground (arith, same)
  where
    some-injective : some x ≡ some d → x ≡ d
    some-injective e = cc
tally-pos d (suc i) (x ∷ xs) h = omega (arith, tally-pos d i xs h)

module _ {A : Type 0} where
  pub get_elem?-some : (xs : List A) (i : ℕ) → i < length xs → (a : A) × (get_elem? xs i ≡ some a)
  get_elem?-some [] i h = absurd (omega (arith, h))
  get_elem?-some (x ∷ xs) zero h = (x, refl)
  get_elem?-some (x ∷ xs) (suc i) h = get_elem?-some xs i (omega (arith, h))

  pub get_elem?-All :
      (P : A → Type 0) (xs : List A) (i : ℕ) {a : A} → All P xs → get_elem? xs i ≡ some a → P a
  get_elem?-All P [] i h e = cc
  get_elem?-All P (x ∷ xs) zero h e = subst P (some-injective e) h.0
    where
      some-injective : {a : A} → some x ≡ some a → x ≡ a
      some-injective q = cc
  get_elem?-All P (x ∷ xs) (suc i) h e = get_elem?-All P xs i h.1 e

  -- What an update leaves: the item changed and the others kept.
  abbrev pub IsUpdated : ℕ → A → List A → List A → Type 0
  IsUpdated i y xs ys =
      (length ys ≡ length xs)
      × (get_elem? ys i ≡ some y)
      × ((j : ℕ) → j ≢ i → get_elem? ys j ≡ get_elem? xs j)

  cons-IsUpdated :
      (i : ℕ) (y a : A) (xs ys : List A)
      → IsUpdated i y xs ys
      → IsUpdated (suc i) y (a ∷ xs) (a ∷ ys)
  cons-IsUpdated i y a xs ys h = (ap suc h.0, h.1, others)
    where
      others : (j : ℕ) → j ≢ suc i → get_elem? (a ∷ ys) j ≡ get_elem? (a ∷ xs) j
      others zero n = refl
      others (suc j) n = h.2 j (λ e. n (ap suc e))

  head-IsUpdated : (y a : A) (xs : List A) → IsUpdated zero y (a ∷ xs) (y ∷ xs)
  head-IsUpdated y a xs = (refl, refl, others)
    where
      others : (j : ℕ) → j ≢ zero → get_elem? (y ∷ xs) j ≡ get_elem? (a ∷ xs) j
      others zero n = absurd (n refl)
      others (suc j) n = refl

  pub update_at-IsUpdated :
      (i : ℕ) (f : A → A) (xs : List A) (x : A)
      → get_elem? xs i ≡ some x
      → (ys : List A) × (update_at i f xs ≡ some ys) × IsUpdated i (f x) xs ys
  unfolding update_at
  update_at-IsUpdated i f [] x h = cc
  update_at-IsUpdated zero f (a ∷ xs) x h =
      let same : a ≡ x = some-injective h in
      (
        f a ∷ xs,
        refl,
        subst (λ t. IsUpdated zero (f t) (a ∷ xs) (f a ∷ xs)) same (head-IsUpdated (f a) a xs),
      )
    where
      some-injective : some a ≡ some x → a ≡ x
      some-injective q = cc
  update_at-IsUpdated (suc i) f (a ∷ xs) x h =
      let (ys, e, u) = update_at-IsUpdated i f xs x h in
      (a ∷ ys, rw e refl, cons-IsUpdated i (f x) a xs ys u)

  All-get_elem? :
      (P : A → Type 0) (xs : List A) → ((j : ℕ) (a : A) → get_elem? xs j ≡ some a → P a) → All P xs
  All-get_elem? P [] h = tt
  All-get_elem? P (x ∷ xs) h = (h 0 x refl, All-get_elem? P xs (λ j. h (suc j)))

  pub All-IsUpdated :
      (P : A → Type 0) (i : ℕ) (y : A) (xs ys : List A)
      → P y
      → All P xs
      → IsUpdated i y xs ys
      → All P ys
  All-IsUpdated P i y xs ys p h u = All-get_elem? P ys each
    where
      at : {a : A} → some y ≡ some a → y ≡ a
      at q = cc

      each : (j : ℕ) (a : A) → get_elem? ys j ≡ some a → P a
      each j a e = elim (Bool-cases (j == i)) [
        | inl q ↦
            let same : j ≡ i = (==_iff j i).0 q in
            subst P (at (sym u.1 ∙ ap (get_elem? ys) (sym same) ∙ e)) p
        | inr q ↦
            let other : j ≢ i = λ k. absurd (ground (arith, q, k)) in
            get_elem?-All P xs j h (sym (u.2 j other) ∙ e)
      ]

  list_eq :
      (xs ys : List A)
      → length ys ≡ length xs
      → ((j : ℕ) → get_elem? ys j ≡ get_elem? xs j)
      → ys ≡ xs
  list_eq [] [] n h = refl
  list_eq [] (y ∷ ys) n h = absurd (omega (arith, n))
  list_eq (x ∷ xs) [] n h = absurd (omega (arith, n))
  list_eq (x ∷ xs) (y ∷ ys) n h =
      let rest = list_eq xs ys (omega (arith, n)) (λ j. h (suc j)) in
      let head : y ≡ x = some-injective (h 0) in ap (λ t. t ∷ ys) head ∙ ap (λ t. x ∷ t) rest
    where
      some-injective : some y ≡ some x → y ≡ x
      some-injective q = cc

pub decrement_at-IsUpdated :
    (i : ℕ) (xs : List ℕ) (m : ℕ)
    → get_elem? xs i ≡ some (suc m)
    → (ys : List ℕ) × (decrement_at i xs ≡ some ys) × IsUpdated i m xs ys
unfolding decrement_at
decrement_at-IsUpdated i [] m h = cc
decrement_at-IsUpdated zero (a ∷ xs) m h =
    let same : a ≡ suc m = some-injective h in
    let pos : (a == 0) ≡ false = ground (arith, same) in
    let less : a - 1 ≡ m = omega (arith, same) in
    (
      (a - 1) ∷ xs,
      rw pos refl,
      subst (λ t. IsUpdated zero t (a ∷ xs) ((a - 1) ∷ xs)) less (head-IsUpdated (a - 1) a xs),
    )
  where
    some-injective : some a ≡ some (suc m) → a ≡ suc m
    some-injective q = cc
decrement_at-IsUpdated (suc i) (a ∷ xs) m h =
    let (ys, e, u) = decrement_at-IsUpdated i xs m h in
    (a ∷ ys, rw e refl, cons-IsUpdated i m a xs ys u)

-- Moving one item from `x` to `y` moves one of the tallies.
pub tally-IsUpdated :
    (d i x y : ℕ) (xs ys : List ℕ)
    → get_elem? xs i ≡ some x
    → IsUpdated i y xs ys
    → tally d ys + hit d x ≡ tally d xs + hit d y
tally-IsUpdated d i x y [] ys at u = cc
tally-IsUpdated d i x y (a ∷ xs) [] at u = absurd (omega (arith, u.0))
tally-IsUpdated d zero x y (a ∷ xs) (b ∷ ys) at u =
    let rest =
      list_eq xs ys (omega (arith, u.0)) (λ j. u.2 (suc j) (λ e. absurd (omega (arith, e)))) in
    let same = ap (tally d) rest in
    let old = ap (hit d) (some-injective at) in
    let new = ap (hit d) (some-injective u.1) in omega (arith, same, old, new)
  where
    some-injective : {k l : ℕ} → some k ≡ some l → k ≡ l
    some-injective q = cc
tally-IsUpdated d (suc i) x y (a ∷ xs) (b ∷ ys) at u =
    let head = ap (hit d) (some-injective (u.2 0 (λ e. absurd (omega (arith, e))))) in
    let rest =
      tally-IsUpdated d i x y xs ys at
        (omega (arith, u.0), u.1, λ j n. u.2 (suc j) (λ e. n (omega (arith, e)))) in
    omega (arith, head, rest)
  where
    some-injective : {k l : ℕ} → some k ≡ some l → k ≡ l
    some-injective q = cc

pub range_from-below : (lo k n : ℕ) → lo + k ≤ n → All (λ i. i < n) (range_from lo k)
unfolding range_from
range_from-below lo zero n h = tt
range_from-below lo (suc k) n h =
    (omega (arith, h), range_from-below (lo + 1) k n (omega (arith, h)))

pub length-range_from : (lo k : ℕ) → length (range_from lo k) ≡ k
unfolding range_from
length-range_from lo zero = refl
length-range_from lo (suc k) = omega (arith, length-range_from (lo + 1) k)

pub get_elem?-replicate : (n c a : ℕ) → c < n → get_elem? (replicate n a) c ≡ some a
unfolding replicate
get_elem?-replicate zero c a h = absurd (omega (arith, h))
get_elem?-replicate (suc n) zero a h = refl
get_elem?-replicate (suc n) (suc c) a h = get_elem?-replicate n c a (omega (arith, h))
