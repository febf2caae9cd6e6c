-- ===== src/Ingest/Reader/SafePath.antt =====
-- Which file the check of ingest/reader.rs lets through.
use wend_rag.Base.{
  List, [], ◌∷◌, ◌++◌, Option, none, some, true, false, ◌==◌, any, is_empty, All, ◌⊎◌, ◌≡◌, ◌≢◌,
  ◌↔◌, arith, inl, inr, refl, sym, ap, ◌∙◌, subst, Bool-cases,
}
use wend_rag.Base.Text.{Text, codes}
use wend_rag.Base.Text.Laws.{text_eq_iff, text_eq_refl}
use wend_rag.Ingest.Reader.{
  FilePath, new_path, join, parent, all_but_last, is_under, begins_with, same_root, FileSystem,
  safe, base_of, validate_safe_path, is_empty_path, unless_empty, base_dir_of,
}
use wend_rag.Ingest.Reader.Steps.{validate_safe_path-steps}

-- What `canonicalize` promises of a path that it returns: it is absolute and has no `..`.
abbrev pub IsCanonical : FilePath → Type 0
IsCanonical p = (p.is_absolute ≡ true) × All (λ c. c ≢ codes "..") p.components

-- Where the path leads from the base.
abbrev pub LeadsTo : FilePath → FilePath → FilePath → Type 0
LeadsTo base path q =
    ((path.is_absolute ≡ true) × (q ≡ path))
    ⊎ ((path.is_absolute ≡ false)
        × (q.is_absolute ≡ base.is_absolute)
        × (q.components ≡ base.components ++ path.components))

-- The path is the base or goes on from it by names, none of them `..`.
abbrev pub GoesOnFrom : FilePath → FilePath → Type 0
GoesOnFrom base p =
    (p.is_absolute ≡ true)
    × (base.is_absolute ≡ true)
    × (rest : List Text) × (p.components ≡ base.components ++ rest)
    × All (λ c. c ≢ codes "..") rest

-- The file is the one the path leads to from the base, and lies under the base.
abbrev pub IsContained : FileSystem → FilePath → Option FilePath → FilePath → Type 0
IsContained fs path base_dir p =
    (b : FilePath) × (c : FilePath) × (q : FilePath) × (base_of fs base_dir ≡ some b)
    × (fs.canonicalize b ≡ some c)
    × LeadsTo b path q
    × (fs.canonicalize q ≡ some p)
    × GoesOnFrom c p

join-LeadsTo : (b path : FilePath) → LeadsTo b path (join b path)
unfolding join
join-LeadsTo b path = elim (Bool-cases path.is_absolute) [
  | inl e ↦ inl (e, rw e refl)
  | inr e ↦ inr (e, rw e refl, rw e refl)
]

FilePath_eq : (p q : FilePath) → p.is_absolute ≡ q.is_absolute → p.components ≡ q.components → p ≡ q
FilePath_eq p q e k i = record { is_absolute = e i; components = k i }

LeadsTo-join : (b path q : FilePath) → LeadsTo b path q → q ≡ join b path
unfolding join
LeadsTo-join b path q (inl h) =
    rw h.0 (FilePath_eq q _ (ap (λ t. t.is_absolute) h.1 ∙ h.0) (ap (λ t. t.components) h.1))
LeadsTo-join b path q (inr h) = rw h.0 (FilePath_eq q _ h.1 h.2)

begins_with-rest :
    (cs ds : List Text) → begins_with cs ds ≡ true → (rest : List Text) × (cs ≡ ds ++ rest)
unfolding begins_with
begins_with-rest cs [] h = (cs, refl)
begins_with-rest [] (d ∷ ds) h = cc
begins_with-rest (c ∷ cs) (d ∷ ds) h =
    let (rest, e) = begins_with-rest cs ds (ground (arith, h)) in
    let same = (text_eq_iff c d).0 (ground (arith, h)) in
    (rest, ap (λ t. t ∷ cs) same ∙ ap (λ t. d ∷ t) e)

begins_with-append : (ds rest : List Text) → begins_with (ds ++ rest) ds ≡ true
unfolding begins_with
begins_with-append [] rest = refl
begins_with-append (d ∷ ds) rest = rw (text_eq_refl d) (begins_with-append ds rest)

All-of-append : (P : Text → Type 0) (xs ys : List Text) → All P (xs ++ ys) → All P ys
All-of-append P [] ys h = h
All-of-append P (x ∷ xs) ys h = All-of-append P xs ys h.1

-- Between canonical paths the test is that one goes on from the other.
is_under_iff :
    (p c : FilePath) → IsCanonical p → IsCanonical c → (is_under p c ≡ true) ↔ GoesOnFrom c p
unfolding is_under same_root
is_under_iff p c h k = (
  (λ u.
      let at = begins_with-rest p.components c.components (begins u) in
      (
        h.0,
        k.0,
        at.0,
        at.1,
        All-of-append _ c.components at.0 (subst (All (λ t. t ≢ codes "..")) at.1 h.1),
      )),
  (λ g. rw (h.0, k.0, g.3) (begins_with-append c.components g.2)),
)
  where
    begins : is_under p c ≡ true → begins_with p.components c.components ≡ true
    begins u = unfold is_under in unfold same_root in (rw (h.0, k.0) at u)

-- Where `canonicalize` keeps its promise, a path is let through as `p` exactly when it has no NUL, the
-- base directory resolves, what the path leads to from the base resolves to `p`, and `p` is the
-- resolved base or goes on from it by names of which none is `..`: no `..` and no link of the path
-- leads out of the base.
pub validate_safe_path_iff :
    (fs : FileSystem) (path : Text) (base_dir : Option FilePath) (p : FilePath)
    → ((q r : FilePath) → fs.canonicalize q ≡ some r → IsCanonical r)
    → (validate_safe_path fs path base_dir ≡ safe p)
      ↔ ((any (λ c. c == 0) path ≡ false) × IsContained fs (new_path path) base_dir p)
validate_safe_path_iff fs path base_dir p canonical =
    let steps = validate_safe_path-steps fs path base_dir p in
    (
      (λ h.
          let (clean, found) = steps.0 h in
          let (b, c, is_b, is_c, is_p, under) = found in
          let on = (is_under_iff p c (canonical _ p is_p) (canonical b c is_c)).0 under in
          (
            clean,
            (b, c, join b (new_path path), is_b, is_c, join-LeadsTo b (new_path path), is_p, on),
          )),
      (λ h.
          let (clean, found) = h in
          let (b, c, q, is_b, is_c, leads, is_p, on) = found in
          let same = LeadsTo-join b (new_path path) q leads in
          let under = (is_under_iff p c (canonical q p is_p) (canonical b c is_c)).1 on in
          steps.1
            (clean, (b, c, is_b, is_c, subst (λ t. fs.canonicalize t ≡ some p) same is_p, under))),
    )

-- A list that is not empty is its beginning and its last item.
all_but_last-append :
    (cs : List Text) → is_empty cs ≡ false → (f : Text) × (cs ≡ all_but_last cs ++ f ∷ [])
unfolding all_but_last
all_but_last-append [] h = cc
all_but_last-append (c ∷ []) h = (c, refl)
all_but_last-append (c ∷ d ∷ cs) h =
    let rest = all_but_last-append (d ∷ cs) refl in (rest.0, ap (λ t. c ∷ t) rest.1)

-- The path has the components of its parent and one more.
unless_empty-parent :
    (p b : FilePath)
    → unless_empty (parent p) ≡ some b
    → (f : Text) × (p.components ≡ b.components ++ f ∷ []) × (b.is_absolute ≡ p.is_absolute)
unfolding unless_empty parent
unless_empty-parent p b h = elim (Bool-cases (is_empty p.components)) [
  | inl e ↦
      let none_is : unless_empty (parent p) ≡ none = unfold parent in rw e refl in
      absurd (none-some (sym none_is ∙ h))
  | inr e ↦
      let q : FilePath = record {
        is_absolute = p.is_absolute;
        components = all_but_last p.components;
      } in
      let is_q : parent p ≡ some q = unfold parent in rw e refl in
      elim (Bool-cases (is_empty_path q)) [
        | inl d ↦
            let none_is : unless_empty (some q) ≡ none = unfold unless_empty in rw d refl in
            absurd (none-some (sym none_is ∙ ap unless_empty (sym is_q) ∙ h))
        | inr d ↦
            let some_is : unless_empty (some q) ≡ some q = unfold unless_empty in rw d refl in
            let same : q ≡ b = some-injective (sym some_is ∙ ap unless_empty (sym is_q) ∙ h) in
            let last = all_but_last-append p.components e in
            (
              last.0,
              last.1 ∙ ap (λ t. t.components ++ last.0 ∷ []) same,
              ap (λ t. t.is_absolute) (sym same),
            )
      ]
]
  where
    none-some : none ≡ some b → ⊥
    none-some h = cc

    some-injective : {q : FilePath} → some q ≡ some b → q ≡ b
    some-injective h = cc

-- `ingest_file` checks a path from the path's own parent. For a relative path with a parent the file
-- that is let through is then the one under the parent's components written twice: `docs/a.md` is
-- looked for at `docs/docs/a.md`.
pub validate_safe_path-twice :
    (fs : FileSystem) (path : Text) (b p : FilePath)
    → (new_path path).is_absolute ≡ false
    → base_dir_of path ≡ some b
    → validate_safe_path fs path (base_dir_of path) ≡ safe p
    → (f : Text) × ((new_path path).components ≡ b.components ++ f ∷ [])
      × (fs.canonicalize
            (record { is_absolute = false; components = b.components ++ (b.components ++ f ∷ []) })
          ≡ some p)
unfolding base_dir_of
validate_safe_path-twice fs path b p relative has h =
    let at = (validate_safe_path-steps fs path (base_dir_of path) p).0 h in
    let split = unless_empty-parent (new_path path) b (unfold base_dir_of in has) in
    let base : at.1.0 ≡ b = some-injective (sym at.1.2 ∙ base_is ∙ has) in
    let joined : join at.1.0 (new_path path) ≡ record {
      is_absolute = false;
      components = b.components ++ (b.components ++ split.0 ∷ []);
    } =
      ap (λ t. join t (new_path path)) base
      ∙ join_relative b (new_path path) relative
      ∙ ap
          (λ t. record { is_absolute = t; components = b.components ++ (new_path path).components })
          (split.2 ∙ relative)
      ∙ ap (λ t. record { is_absolute = false; components = b.components ++ t }) split.1 in
    (split.0, split.1, ap fs.canonicalize (sym joined) ∙ at.1.4)
  where
    some-injective : {q : FilePath} → some q ≡ some b → q ≡ b
    some-injective h = cc

    based : (o : Option FilePath) → o ≡ some b → base_of fs o ≡ o
    based none e = cc
    based (some q) e = unfold base_of in refl

    base_is : base_of fs (base_dir_of path) ≡ base_dir_of path
    base_is = based (base_dir_of path) has

    join_relative :
        (c q : FilePath)
        → q.is_absolute ≡ false
        → join c q
          ≡ record { is_absolute = c.is_absolute; components = c.components ++ q.components }
    join_relative c q e = unfold join in rw e refl
