-- ===== src/Ingest/Reader/Steps.antt =====
-- What the check of a path in ingest/reader.rs comes to, step by step.
use wend_rag.Base.{
  Option, none, some, true, false, ◌==◌, any, ◌≡◌, ◌↔◌, inl, inr, refl, sym, ap, subst, Bool-cases,
}
use wend_rag.Base.Text.{Text}
use wend_rag.Ingest.Reader.{
  FilePath, new_path, join, is_under, FileSystem, PathRefusal, null_byte, no_current_dir, no_base,
  not_resolved, escapes, safe, refused, check_under, base_of, check_from, validate_safe_path,
}

-- The two canonical paths, and the test on them.
abbrev pub IsChecked : FileSystem → FilePath → Option FilePath → FilePath → Type 0
IsChecked fs path base_dir p =
    (b : FilePath) × (c : FilePath) × (base_of fs base_dir ≡ some b)
    × (fs.canonicalize b ≡ some c)
    × (fs.canonicalize (join b path) ≡ some p)
    × (is_under p c ≡ true)

safe-injective : (p q : FilePath) → safe p ≡ safe q → p ≡ q
safe-injective p q h = cc

refused-safe : (e : PathRefusal) (p : FilePath) → refused e ≡ safe p → ⊥
refused-safe e p h = cc

-- What the two canonical paths come to.
check_under_iff :
    (b q : Option FilePath) (p : FilePath)
    → (check_under b q ≡ safe p)
      ↔ ((c : FilePath) × (b ≡ some c) × (q ≡ some p) × (is_under p c ≡ true))
unfolding check_under
check_under_iff none q p =
    ((λ h. absurd (refused-safe no_base p h)), λ h. absurd (none-some h.0 h.1))
  where
    none-some : (c : FilePath) → none ≡ some c → ⊥
    none-some c h = cc
check_under_iff (some c) none p =
    ((λ h. absurd (refused-safe not_resolved p h)), λ h. absurd (none-some p h.2))
  where
    none-some : (d : FilePath) → none ≡ some d → ⊥
    none-some d h = cc
check_under_iff (some c) (some q) p = elim (Bool-cases (is_under q c)) [
  | inl e ↦ rw e (
    (λ h.
        let same = safe-injective q p h in
        (c, refl, ap some same, subst (λ t. is_under t c ≡ true) same e)),
    (λ h. ap safe (some-injective q p h.2)),
  )
  | inr e ↦ rw e (
    (λ h. absurd (refused-safe escapes p h)),
    (λ h.
        let under : is_under q c ≡ true =
          subst (λ t. is_under t c ≡ true) (sym (some-injective q p h.2))
            (subst (λ t. is_under p t ≡ true) (sym (some-injective c h.0 h.1)) h.3) in
        cc),
  )
]
  where
    some-injective : (a b : FilePath) → some a ≡ some b → a ≡ b
    some-injective a b h = cc

check_from_iff :
    (fs : FileSystem) (path : FilePath) (b : Option FilePath) (p : FilePath)
    → (check_from fs path b ≡ safe p) ↔ (
        (a : FilePath) × (c : FilePath) × (b ≡ some a)
        × (fs.canonicalize a ≡ some c)
        × (fs.canonicalize (join a path) ≡ some p)
        × (is_under p c ≡ true))
unfolding check_from
check_from_iff fs path none p =
    ((λ h. absurd (refused-safe no_current_dir p h)), λ h. absurd (none-some h.0 h.2))
  where
    none-some : (c : FilePath) → none ≡ some c → ⊥
    none-some c h = cc
check_from_iff fs path (some a) p =
    let under = check_under_iff (fs.canonicalize a) (fs.canonicalize (join a path)) p in
    (
      (λ h. let k = under.0 h in (a, k.0, refl, k.1, k.2, k.3)),
      (λ h.
          let same = some-injective a h.0 h.2 in
          under.1 (
            h.1,
            subst (λ t. fs.canonicalize t ≡ some h.1) (sym same) h.3,
            subst (λ t. fs.canonicalize (join t path) ≡ some p) (sym same) h.4,
            h.5,
          )),
    )
  where
    some-injective : (a b : FilePath) → some a ≡ some b → a ≡ b
    some-injective a b h = cc

-- The check, step by step.
pub validate_safe_path-steps :
    (fs : FileSystem) (path : Text) (base_dir : Option FilePath) (p : FilePath)
    → (validate_safe_path fs path base_dir ≡ safe p)
      ↔ ((any (λ c. c == 0) path ≡ false) × IsChecked fs (new_path path) base_dir p)
unfolding validate_safe_path
validate_safe_path-steps fs path base_dir p = elim (Bool-cases (any (λ c. c == 0) path)) [
  | inl e ↦ rw e ((λ h. absurd (refused-safe null_byte p h)), λ h. absurd (true-false h.0))
  | inr e ↦
      let from = check_from_iff fs (new_path path) (base_of fs base_dir) p in
      rw e ((λ h. (refl, from.0 h)), λ h. from.1 h.1)
]
  where
    true-false : true ≡ false → ⊥
    true-false h = cc
