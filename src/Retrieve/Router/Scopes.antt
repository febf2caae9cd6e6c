-- ===== src/Retrieve/Router/Scopes.antt =====
-- What scope and confidence the rules of retrieve/router.rs can give, and what the default
-- configuration makes of them.
use native.Mathlib.Nat.{le-div_iff_mul-le, mul-le-mul_right}
use wend_rag.Base.{
  ℕ, zero, suc, ◌+◌, ◌-◌, ◌*◌, ◌/◌, ◌^◌, ◌≤◌, min, none, some, true, false, ltb, lt→ltb, length,
  ◌⊎◌, inl, inr, ◌≡◌, refl, sym, ap, arith, Bool-cases,
}
use wend_rag.Base.Text.{Text, byte_len}
use wend_rag.Retrieve.Router.Keywords.{local_keywords, global_keywords}
use wend_rag.Base.Unicode.{Unicode}
use wend_rag.Retrieve.Router.Single.{
  nearest, round_from, round, tenths_3, tenths_5, tenths_6, tenths_7, one,
}
use wend_rag.Retrieve.Router.{
  QueryScope, to_local, to_global, hybrid, ClassificationConfidence, ClassificationMethod,
  rule_based, fallback, QueryClassification, QueryRouterConfig, default_config, RouteDecision,
  matches_of, scope_for, classify, decide, route,
}

div-low : (d x q : ℕ) → 1 ≤ d → q * d ≤ x → q * d ≤ x / d * d
div-low d x q pos h = mul-le-mul_right d ((le-div_iff_mul-le pos).1 h)

nearest-low : (d x : ℕ) → 1 ≤ d → 2 ^ 23 * d ≤ x → 2 ^ 23 * d ≤ nearest d x
unfolding nearest
nearest-low d x pos h = ground (arith, div-low d x (2 ^ 23) pos h)

round_from-wider :
    (fuel d x : ℕ)
    → ltb x (2 ^ 24 * d) ≡ false
    → round_from (suc fuel) d x ≡ round_from fuel (2 * d) x
unfolding round_from
round_from-wider fuel d x e = rw e refl

round_from-here :
    (fuel d x : ℕ) → ltb x (2 ^ 24 * d) ≡ true → round_from (suc fuel) d x ≡ nearest d x
unfolding round_from
round_from-here fuel d x e = rw e refl

round_from-low : (fuel d x : ℕ) → 1 ≤ d → 2 ^ 23 * d ≤ x → 2 ^ 23 * d ≤ round_from fuel d x
round_from-low zero d x pos h = unfold round_from in nearest-low d x pos h
round_from-low (suc fuel) d x pos h = elim (Bool-cases (ltb x (2 ^ 24 * d))) [
  | inl e ↦ rw (round_from-here fuel d x e) (nearest-low d x pos h)
  | inr e ↦
      let above : 2 ^ 23 * (2 * d) ≤ x = ground (arith, e) in
      let wider = round_from-low fuel (2 * d) x (omega arith) above in
      rw (round_from-wider fuel d x e) (omega (arith, wider))
]

round-one : (x : ℕ) → one ≤ x → one ≤ round x
unfolding round
round-one x h =
    let first : ltb x (2 ^ 24 * 1) ≡ false = ground (arith, h) in
    let second : ltb x (2 ^ 24 * 2) ≡ false = ground (arith, h) in
    rw (round_from-wider 39 1 x first, round_from-wider 38 2 x second)
      (round_from-low 38 4 x (omega arith) (omega arith))

nearest-1 : (x : ℕ) → nearest 1 x ≡ x
unfolding nearest
nearest-1 x = ground arith

round-tenths_3 : (x : ℕ) → tenths_3 ≤ x → tenths_3 ≤ round x
unfolding round
round-tenths_3 x h = elim (Bool-cases (ltb x (2 ^ 24 * 1))) [
  | inl e ↦ rw (round_from-here 39 1 x e, nearest-1 x) h
  | inr e ↦
      let low = round_from-low 39 2 x (omega arith) (ground (arith, e)) in
      rw (round_from-wider 39 1 x e) (omega (arith, low))
]

round-zero : round 0 ≡ 0
unfolding round
round-zero = refl

round-sum : round (tenths_7 + tenths_3) ≡ one
unfolding round
round-sum = refl

abbrev pub verdict : QueryScope → ℕ → ClassificationMethod → QueryScope × ClassificationConfidence
verdict scope score method = (scope, record { score = score; method = method })

abbrev pub IsVerdict : ℕ → ℕ → QueryScope × ClassificationConfidence → Type 0
IsVerdict l g v =
    ((v ≡ verdict hybrid tenths_5 fallback) × (l ≡ 0) × (g ≡ 0))
    ⊎ ((v ≡ verdict hybrid tenths_6 rule_based) × (1 ≤ l) × (1 ≤ g))
    ⊎ ((v ≡ verdict to_local one rule_based) × (1 ≤ l))
    ⊎ ((v ≡ verdict to_global one rule_based) × (1 ≤ g))

-- The score of some matches is at least that of one match, and tops the sum with 0.7 up to 1.
score-low : (n : ℕ) → tenths_3 ≤ round (suc n * tenths_3)
score-low n = round-tenths_3 (suc n * tenths_3) (omega arith)

capped : (s : ℕ) → tenths_3 ≤ s → min (round (tenths_7 + s)) one ≡ one
capped s h = omega (arith, round-one (tenths_7 + s) (omega arith))

score-ltb : (n : ℕ) → ltb 0 (round (suc n * tenths_3)) ≡ true
score-ltb n = lt→ltb 0 (round (suc n * tenths_3)) (omega (arith, score-low n))

topped : (d : ℕ) → ltb d tenths_3 ≡ false → round (tenths_7 + min d tenths_3) ≡ one
topped d h = let full : min d tenths_3 ≡ tenths_3 = ground (arith, h) in rw full round-sum

-- Of so many local and so many global matches the rules make one of four verdicts: hybrid with 0.5
-- when there are none, hybrid with 0.6 only when there are both, and local or global, which need a
-- match of that kind, always with the full confidence 1.
pub scope_for-IsVerdict : (l g : ℕ) → IsVerdict l g (scope_for l g)
unfolding scope_for
scope_for-IsVerdict zero zero = rw round-zero (inl (refl, refl, refl))
scope_for-IsVerdict (suc l) zero =
    rw (round-zero, score-ltb l, capped (round (suc l * tenths_3)) (score-low l))
      (inr (inr (inl (refl, omega arith))))
scope_for-IsVerdict zero (suc g) =
    rw (round-zero, score-ltb g, capped (round (suc g * tenths_3)) (score-low g))
      (inr (inr (inr (refl, omega arith))))
scope_for-IsVerdict (suc l) (suc g) =
    let a = round (suc l * tenths_3) in
    let b = round (suc g * tenths_3) in
    let diff = round ((a - b) + (b - a)) in
    elim (Bool-cases (ltb diff tenths_3)) [
      | inl e ↦ rw (score-ltb l, score-ltb g, e) (inr (inl (refl, omega arith, omega arith)))
      | inr e ↦ elim (Bool-cases (ltb b a)) [
        | inl t ↦
            rw (score-ltb l, score-ltb g, e, t, topped diff e) (inr (inr (inl (refl, omega arith))))
        | inr t ↦
            rw (score-ltb l, score-ltb g, e, t, topped diff e) (inr (inr (inr (refl, omega arith))))
      ]
    ]

abbrev pub IsScored : QueryScope → ℕ → Type 0
IsScored scope score =
    ((scope ≡ hybrid) × (score ≡ tenths_5))
    ⊎ ((scope ≡ hybrid) × (score ≡ tenths_6))
    ⊎ (score ≡ one)

scope_for-IsScored : (l g : ℕ) → IsScored (scope_for l g).0 (scope_for l g).1.score
scope_for-IsScored l g = elim (scope_for-IsVerdict l g) [
  | inl (e, q, r) ↦ inl (ap (λ v. v.0) e, ap (λ v. v.1.score) e)
  | inr (inl (e, q, r)) ↦ inr (inl (ap (λ v. v.0) e, ap (λ v. v.1.score) e))
  | inr (inr (inl (e, r))) ↦ inr (inr (ap (λ v. v.1.score) e))
  | inr (inr (inr (e, r))) ↦ inr (inr (ap (λ v. v.1.score) e))
]

classify-IsScored :
    (unicode : Unicode) (config : QueryRouterConfig) (query : Text)
    → IsScored
        (classify unicode config query).scope
        (classify unicode config query).confidence.score
unfolding classify
classify-IsScored unicode config query =
    elim (Bool-cases (ltb (byte_len query) config.min_query_length)) [
      | inl e ↦ rw e (inl (refl, refl))
      | inr e ↦
          let normalized = unicode.to_lowercase query in
          rw e (
            scope_for-IsScored
              (length (matches_of config.max_query_length normalized local_keywords))
              (length (matches_of config.max_query_length normalized global_keywords)))
    ]

-- The first scope is the one the query was classed as, and a second one is there only as hybrid
-- beside hybrid.
abbrev pub FollowsScope : RouteDecision → Type 0
FollowsScope r =
    (r.primary_scope ≡ r.classification.scope)
    × ((r.secondary_scope ≡ none)
        ⊎ ((r.primary_scope ≡ hybrid) × (r.secondary_scope ≡ some hybrid)))

decide-FollowsScope :
    (unicode : Unicode) (c : QueryClassification)
    → IsScored c.scope c.confidence.score
    → FollowsScope (decide unicode default_config c)
unfolding decide
decide-FollowsScope unicode c (inl (s, e)) = rw e (sym s, inl refl)
decide-FollowsScope unicode c (inr (inl (s, e))) = rw e (refl, inr (s, refl))
decide-FollowsScope unicode c (inr (inr e)) = rw e (refl, inl refl)

-- With the default configuration every query is routed by the scope it is classed as, and a second
-- scope is named only where both are hybrid: the rules never pair local with global or hybrid.
pub route-FollowsScope :
    (unicode : Unicode) (query : Text) → FollowsScope (route unicode default_config query)
unfolding route
route-FollowsScope unicode query =
    decide-FollowsScope unicode (classify unicode default_config query)
      (classify-IsScored unicode default_config query)
