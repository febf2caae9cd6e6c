-- ===== src/Store/TextUtil/Trigrams.antt =====
-- The trigram counts of store/sqlite/text_util.rs.
use wend_rag.Base.{
  ℕ, ◌+◌, ◌-◌, List, [], ◌∷◌, Bool, true, false, if◌then◌else◌, length, ◌≡◌, refl, sym, ap, ◌∙◌,
  arith, Bool-cases, inl, inr,
}
use wend_rag.Base.Text.{Text, text_eq}
use wend_rag.Base.Text.Laws.{text_eq_iff}
use wend_rag.Store.TextUtil.{
  Counts, count_up, count_of, windows_3, count_all, build_trigram_multiset, sum_counts,
}

-- How often a text stands in a list.
abbrev pub occurrences : Text → List Text → ℕ
occurrences t [] = 0
occurrences t (u ∷ us) = (if text_eq u t then 1 else 0) + occurrences t us

sum_counts-count_up :
    (t : Text) (counts : Counts) → sum_counts (count_up t counts) ≡ sum_counts counts + 1
unfolding sum_counts count_up
sum_counts-count_up t [] = omega arith
sum_counts-count_up t (p ∷ ps) = ground (arith, sum_counts-count_up t ps)

text_eq_trans : (a b c : Text) → text_eq a b ≡ true → text_eq a c ≡ text_eq b c
text_eq_trans a b c h = ap (λ t. text_eq t c) ((text_eq_iff a b).0 h)

count_of-count_up :
    (u t : Text) (counts : Counts)
    → count_of u (count_up t counts) ≡ (if text_eq t u then 1 else 0) + count_of u counts
unfolding count_of count_up
count_of-count_up u t [] = omega arith
count_of-count_up u t (p ∷ ps) =
    let ih = count_of-count_up u t ps in
    elim (Bool-cases (text_eq p.0 t)) [
      | inl e ↦
          let same = text_eq_trans p.0 t u e in
          rw e (elim (Bool-cases (text_eq t u)) [
            | inl q ↦ rw (same, q) (omega arith)
            | inr q ↦ rw (same, q) (omega arith)
          ])
      | inr e ↦ rw e (elim (Bool-cases (text_eq p.0 u)) [
        | inl q ↦
            let other : text_eq t u ≡ false = differs (text_eq t u) refl q e in
            rw (q, other) (omega arith)
        | inr q ↦ rw q ih
      ])
    ]
  where
    differs :
        (b : Bool)
        → text_eq t u ≡ b
        → text_eq p.0 u ≡ true
        → text_eq p.0 t ≡ false
        → text_eq t u ≡ false
    differs false h q e = h
    differs true h q e =
        let a = (text_eq_iff p.0 u).0 q in
        let b = (text_eq_iff t u).0 h in
        let c : p.0 ≡ t = a ∙ sym b in
        let d = (text_eq_iff p.0 t).1 c in absurd (ground (arith, d, e))

count_of-count_all :
    (u : Text) (ts : List Text) (counts : Counts)
    → count_of u (count_all ts counts) ≡ occurrences u ts + count_of u counts
unfolding count_all
count_of-count_all u [] counts = omega arith
count_of-count_all u (t ∷ ts) counts =
    count_of-count_all u ts (count_up t counts)
    ∙ ap (λ n. occurrences u ts + n) (count_of-count_up u t counts)
    ∙ omega arith

sum_counts-count_all :
    (ts : List Text) (counts : Counts)
    → sum_counts (count_all ts counts) ≡ length ts + sum_counts counts
unfolding count_all
sum_counts-count_all [] counts = omega arith
sum_counts-count_all (t ∷ ts) counts =
    sum_counts-count_all ts (count_up t counts)
    ∙ ap (λ n. length ts + n) (sum_counts-count_up t counts)
    ∙ omega arith

length-windows_3 : (s : Text) → length (windows_3 s) ≡ length s - 2
unfolding windows_3
length-windows_3 [] = omega arith
length-windows_3 (a ∷ []) = omega arith
length-windows_3 (a ∷ b ∷ []) = omega arith
length-windows_3 (a ∷ b ∷ c ∷ s) = omega (arith, length-windows_3 (b ∷ c ∷ s))

-- The multiset counts every text as often as it stands among the windows of three characters, and
-- all the counts together are the length less two.
pub build_trigram_multiset_counts :
    (value trigram : Text)
    → (count_of trigram (build_trigram_multiset value) ≡ occurrences trigram (windows_3 value))
      × (sum_counts (build_trigram_multiset value) ≡ length value - 2)
unfolding build_trigram_multiset
build_trigram_multiset_counts value trigram = (
  count_of-count_all trigram (windows_3 value) [] ∙ no_more,
  sum_counts-count_all (windows_3 value) [] ∙ no_sum ∙ length-windows_3 value,
)
  where
    no_more :
        occurrences trigram (windows_3 value) + count_of trigram []
        ≡ occurrences trigram (windows_3 value)
    no_more = unfold count_of in omega arith

    no_sum : length (windows_3 value) + sum_counts [] ≡ length (windows_3 value)
    no_sum = unfold sum_counts in omega arith
