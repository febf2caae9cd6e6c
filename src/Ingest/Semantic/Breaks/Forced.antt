-- ===== src/Ingest/Semantic/Breaks/Forced.antt =====
-- Where the break points lie.
use wend_rag.Base.{
  ℕ, zero, suc, ◌+◌, ◌-◌, ◌*◌, ◌≤◌, ◌<◌, List, [], ◌∷◌, ◌++◌, some, true, leb, length, any,
  get_elem?, All, All-append, Any, arith, ◌≡◌, refl, ap, ◌∙◌, Bool-cases, inl, inr,
}
use wend_rag.Base.Float.{Float}
use wend_rag.Base.Sort.{
  sort, dedup, Ascending, dedup-Ascending, sort-IsSorted, leb_total, leb_trans, All-sort, All-dedup,
  Any-sort, Any-dedup, length-sort,
}
use wend_rag.Ingest.Semantic.Groups.{sentence_group_size}
use wend_rag.Ingest.Semantic.Breaks.{
  semantic_breaks, is_near, add_unless_near, forced_loop, add_forced, threshold_of,
  find_breakpoints_maxmin,
}
use mathlib.Core.Path.{subst}
use native.Mathlib.Decide.{dec_lt}

-- Less than `SENTENCE_GROUP_SIZE` apart.
abbrev pub IsNear : ℕ → ℕ → Type 0
IsNear m bp = (m < bp + sentence_group_size) × (bp < m + sentence_group_size)

Any-append_left {ℓ} : {A : Type ℓ} (P : A → Type 0) (xs ys : List A) → Any P xs → Any P (xs ++ ys)
Any-append_left P [] ys h = elim h [ ]
Any-append_left P (x ∷ xs) ys (inl h) = inl h
Any-append_left P (x ∷ xs) ys (inr h) = inr (Any-append_left P xs ys h)

Any-append_right {ℓ} : {A : Type ℓ} (P : A → Type 0) (xs ys : List A) → Any P ys → Any P (xs ++ ys)
Any-append_right P [] ys h = h
Any-append_right P (x ∷ xs) ys h = inr (Any-append_right P xs ys h)

Any-is_near : (m : ℕ) (bps : List ℕ) → any (is_near m) bps ≡ true → Any (IsNear m) bps
unfolding is_near
Any-is_near m [] h = cc
Any-is_near m (bp ∷ bps) h = elim (Bool-cases (is_near m bp)) [
  | inl e ↦ inl (ground arith, ground arith)
  | inr e ↦ inr (Any-is_near m bps (ground arith))
]

-- What the loop adds to: nothing is dropped, nothing reaches `len`, and every forced position from
-- the `j`-th on has a break point near it.
record Extends (len interval j : ℕ) (old new : List ℕ) : Type 1 where
  kept : (P : ℕ → Type 0) → Any P old → Any P new
  below : All (λ bp. bp < len) old → All (λ bp. bp < len) new
  near : (k : ℕ) → j ≤ k → k * interval < len → Any (IsNear (k * interval)) new

module _ (len interval : ℕ) where
  add_unless_near-kept :
      (P : ℕ → Type 0) (m : ℕ) (bps : List ℕ) → Any P bps → Any P (add_unless_near m bps)
  unfolding add_unless_near
  add_unless_near-kept P m bps h = elim (Bool-cases (any (is_near m) bps)) [
    | inl e ↦ rw e h
    | inr e ↦ rw e (Any-append_left P bps (m ∷ []) h)
  ]

  add_unless_near-below :
      (m : ℕ) (bps : List ℕ)
      → m < len
      → All (λ bp. bp < len) bps
      → All (λ bp. bp < len) (add_unless_near m bps)
  unfolding add_unless_near
  add_unless_near-below m bps h k = elim (Bool-cases (any (is_near m) bps)) [
    | inl e ↦ rw e k
    | inr e ↦ rw e (All-append (λ bp. bp < len) bps (m ∷ []) k (h, tt))
  ]

  add_unless_near-IsNear : (m : ℕ) (bps : List ℕ) → Any (IsNear m) (add_unless_near m bps)
  unfolding add_unless_near
  add_unless_near-IsNear m bps = elim (Bool-cases (any (is_near m) bps)) [
    | inl e ↦ rw e (Any-is_near m bps e)
    | inr e ↦ rw e (Any-append_right (IsNear m) bps (m ∷ []) (inl (omega arith, omega arith)))
  ]

  forced_loop-Extends :
      (fuel j m : ℕ) (bps : List ℕ)
      → 1 ≤ interval
      → m ≡ j * interval
      → len < m + fuel
      → 1 ≤ fuel
      → (new : List ℕ) × (forced_loop fuel len interval m bps ≡ some new)
        × Extends len interval j bps new
  unfolding forced_loop
  forced_loop-Extends zero j m bps h e k l = absurd (omega arith)
  forced_loop-Extends (suc fuel) j m bps h e k l = elim (dec_lt m len) [
    | no out ↦ (
      bps,
      ground arith,
      record { kept = λ P p. p; below = λ p. p; near = λ n le lt. absurd (grind arith) },
    )
    | yes more ↦
        let (new, eq, r) =
          forced_loop-Extends fuel (suc j) (m + interval) (add_unless_near m bps) h (omega arith)
            (omega arith) (omega arith) in
        (
          new,
          ground (arith, eq),
          record {
            kept = λ P p. r.kept P (add_unless_near-kept P m bps p);
            below = λ p. r.below (add_unless_near-below m bps more p);
            near = λ n le lt. elim (dec_lt j n) [
              | yes past ↦ r.near n past lt
              | no here ↦
                  let same : j ≡ n = omega arith in
                  r.kept (IsNear (n * interval)) (
                    subst (λ t. Any (IsNear t) (add_unless_near m bps))
                      (e ∙ ap (λ t. t * interval) same) (add_unless_near-IsNear m bps))
            ];
          },
        )
  ]

-- The break points that a search returns, at the threshold that it uses.
pub record AreBreaks (f32 : Float) (similarities : List f32.F) (max_sentences : ℕ)
    (threshold : f32.F) (breaks : List ℕ) : Type 0 where
  pub ascending : Ascending breaks
  pub in_range : All (λ bp. bp < length similarities) breaks
  -- every gap that is as wide as the threshold is a break
  pub semantic :
      (i : ℕ) (sim : f32.F)
      → get_elem? similarities i ≡ some sim
      → f32.le sim threshold ≡ true
      → Any (λ bp. bp ≡ i) breaks
  -- every forced position has a break near it
  pub forced :
      (k : ℕ)
      → sentence_group_size < max_sentences
      → 1 ≤ k
      → k * (max_sentences - sentence_group_size) < length similarities
      → Any (IsNear (k * (max_sentences - sentence_group_size))) breaks

get_elem?-some {ℓ} :
    {A : Type ℓ} (xs : List A) (i : ℕ) → i < length xs → (a : A) × (get_elem? xs i ≡ some a)
get_elem?-some [] i h = absurd (omega arith)
get_elem?-some (x ∷ xs) zero h = (x, refl)
get_elem?-some (x ∷ xs) (suc i) h = get_elem?-some xs i (omega arith)

module _ (f32 f64 : Float) where
  semantic_breaks-below :
      (threshold : f32.F) (sims : List f32.F) (i n : ℕ)
      → i + length sims ≤ n
      → All (λ bp. bp < n) (semantic_breaks f32 threshold sims i)
  unfolding semantic_breaks
  semantic_breaks-below threshold [] i n h = tt
  semantic_breaks-below threshold (sim ∷ sims) i n h =
      let rest = semantic_breaks-below threshold sims (i + 1) n (omega arith) in
      ground (arith, rest)

  semantic_breaks-Any :
      (threshold : f32.F) (sims : List f32.F) (i j m : ℕ) (sim : f32.F)
      → m ≡ i + j
      → get_elem? sims j ≡ some sim
      → f32.le sim threshold ≡ true
      → Any (λ bp. bp ≡ m) (semantic_breaks f32 threshold sims i)
  unfolding semantic_breaks
  semantic_breaks-Any threshold [] i j m sim e h k = cc
  semantic_breaks-Any threshold (s ∷ sims) i zero m sim e h k =
      let same : f32.le s threshold ≡ true = ground arith in rw same (inl (omega arith))
  semantic_breaks-Any threshold (s ∷ sims) i (suc j) m sim e h k =
      let rest = semantic_breaks-Any threshold sims (i + 1) j m sim (omega arith) h k in
      ground (arith, rest)

  add_forced_lem :
      (max_sentences len : ℕ) (bps : List ℕ)
      → (new : List ℕ) × (add_forced max_sentences len bps ≡ some new)
        × ((P : ℕ → Type 0) → Any P bps → Any P new)
        × (All (λ bp. bp < len) bps → All (λ bp. bp < len) new)
        × ((k : ℕ)
            → sentence_group_size < max_sentences
            → 1 ≤ k
            → k * (max_sentences - sentence_group_size) < len
            → Any (IsNear (k * (max_sentences - sentence_group_size))) new)
  unfolding add_forced
  add_forced_lem max_sentences len bps = elim (dec_lt 0 (max_sentences - sentence_group_size)) [
    | no none_forced ↦ (bps, ground arith, λ P p. p, λ p. p, λ k h. absurd (omega arith))
    | yes forced ↦
        let interval = max_sentences - sentence_group_size in
        let (new, e, r) =
          forced_loop-Extends len interval (suc len) 1 interval bps forced (omega arith)
            (omega arith) (omega arith) in
        (new, ground (arith, e), r.kept, r.below, λ k h. r.near k)
  ]

  threshold_of-some :
      (similarities : List f32.F) (p : f64.F)
      → 1 ≤ length similarities
      → (t : f32.F) × (threshold_of f32 f64 similarities p ≡ some t)
  unfolding threshold_of
  threshold_of-some similarities p h =
      get_elem?-some (sort f32.le similarities) _ (omega (arith, length-sort f32.le similarities))

  -- For at least one similarity the search ends, with the break points in ascending order and in
  -- range; each gap that is as wide as the percentile's threshold is one of them, and each multiple
  -- of the forced interval has one less than `SENTENCE_GROUP_SIZE` away.
  pub find_breakpoints-AreBreaks :
      (similarities : List f32.F) (threshold_percentile : f64.F) (max_sentences : ℕ)
      → 1 ≤ length similarities
      → (threshold : f32.F) × (breaks : List ℕ) × (threshold_of f32 f64 similarities
            threshold_percentile
          ≡ some threshold)
        × (find_breakpoints_maxmin f32 f64 similarities threshold_percentile max_sentences
            ≡ some breaks)
        × AreBreaks f32 similarities max_sentences threshold breaks
  unfolding find_breakpoints_maxmin
  find_breakpoints-AreBreaks similarities p max_sentences h =
      let (t, te) = threshold_of-some similarities p h in
      let found = semantic_breaks f32 t similarities 0 in
      let (new, ne, kept, below, near) = add_forced_lem max_sentences (length similarities) found in
      (
        t,
        dedup (sort leb new),
        te,
        rw (te, ne) (ground arith),
        record {
          ascending = dedup-Ascending (sort leb new) (sort-IsSorted leb leb_total leb_trans new);
          in_range =
              All-dedup _ _
                (All-sort leb _ _ (below (semantic_breaks-below t similarities 0 _ (omega arith))));
          semantic = λ i sim at le. Any-dedup _ _ (
              Any-sort leb _ _
                (kept _ (semantic_breaks-Any t similarities 0 i i sim (omega arith) at le)));
          forced = λ k gt pos lt. Any-dedup _ _ (Any-sort leb _ _ (near k gt pos lt));
        },
      )
