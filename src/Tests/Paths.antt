-- ===== src/Tests/Paths.antt =====
-- The check of a path in ingest/reader.rs, in a file system without links, and in one where every
-- path resolves to itself.
use wend_rag.Base.{
  List, Bool-cases, if◌then◌else◌, All, All-append, inl, inr, ◌≢◌, sym, subst, ◌∙◌, [], ◌∷◌, some,
  false, true, any, ◌==◌, ◌++◌, ◌≡◌, ◌↔◌, refl,
}
use wend_rag.Base.Text.{Text, codes, text_eq}
use wend_rag.Ingest.Reader.{
  FilePath, FileSystem, new_path, components_from, add_component, starts_at_root, join, parent,
  all_but_last, is_under, same_root, begins_with, check_under, base_of, check_from,
  validate_safe_path, safe, refused, escapes, base_dir_of, unless_empty, is_empty_path,
}
use wend_rag.Ingest.Reader.SafePath.{
  IsCanonical, IsContained, validate_safe_path_iff, validate_safe_path-twice,
}
use wend_rag.Base.Text.Laws.{text_eq_iff}

abbrev file_system : FileSystem
file_system = record {
  current_dir = some record { is_absolute = true; components = codes "home" ∷ [] };
  canonicalize = λ p. some p;
}

abbrev docs : FilePath
docs = record { is_absolute = false; components = codes "docs" ∷ [] }

abbrev docs_twice : FilePath
docs_twice = record {
  is_absolute = false;
  components = codes "docs" ∷ codes "docs" ∷ codes "a.md" ∷ [];
}

-- A file system without links: `.` is gone, and `..` takes back the name before it.
abbrev resolve : List Text → List Text → List Text
resolve done_part [] = done_part
resolve done_part (c ∷ cs) =
    if text_eq c (codes "..")
    then resolve (all_but_last done_part) cs
    else resolve (done_part ++ c ∷ []) cs

abbrev plain : FileSystem
plain = record {
  current_dir = some record { is_absolute = true; components = codes "home" ∷ [] };
  canonicalize = λ p. some record {
    is_absolute = true;
    components = resolve (if p.is_absolute then [] else codes "home" ∷ []) p.components;
  };
}

all_but_last-All : (P : Text → Type 0) (cs : List Text) → All P cs → All P (all_but_last cs)
unfolding all_but_last
all_but_last-All P [] h = tt
all_but_last-All P (c ∷ []) h = tt
all_but_last-All P (c ∷ d ∷ cs) h = (h.0, all_but_last-All P (d ∷ cs) h.1)

resolve-All :
    (ds cs : List Text) → All (λ c. c ≢ codes "..") ds → All (λ c. c ≢ codes "..") (resolve ds cs)
resolve-All ds [] h = h
resolve-All ds (c ∷ cs) h = elim (Bool-cases (text_eq c (codes ".."))) [
  | inl e ↦ rw e (resolve-All (all_but_last ds) cs (all_but_last-All _ ds h))
  | inr e ↦ rw e (resolve-All (ds ++ c ∷ []) cs (All-append _ ds (c ∷ []) h (other c e, tt)))
]
  where
    other : (c : Text) → text_eq c (codes "..") ≡ false → c ≢ codes ".."
    other c e k = true-false (sym ((text_eq_iff c (codes "..")).1 k) ∙ e)
      where
        true-false : true ≡ false → ⊥
        true-false h = cc

plain-IsCanonical : (q r : FilePath) → plain.canonicalize q ≡ some r → IsCanonical r
plain-IsCanonical q r h =
    subst IsCanonical (some-injective h)
      (refl, resolve-All (if q.is_absolute then [] else codes "home" ∷ []) q.components start)
  where
    some-injective : {s : FilePath} → some s ≡ some r → s ≡ r
    some-injective h = cc

    start : All (λ c. c ≢ codes "..") (if q.is_absolute then [] else codes "home" ∷ [])
    start = elim (Bool-cases q.is_absolute) [
      | inl e ↦ rw e tt
      | inr e ↦ rw e ((λ k. home_is_name k), tt)
    ]
      where
        home_is_name : codes "home" ≢ codes ".."
        home_is_name k = cc

abbrev docs_file : FilePath
docs_file = record {
  is_absolute = true;
  components = codes "home" ∷ codes "docs" ∷ codes "a.md" ∷ [];
}

validate_safe_path_iff_example :
    (validate_safe_path plain (codes "x/../a.md") (some docs) ≡ safe docs_file) ↔ (
      (any (λ c. c == 0) (codes "x/../a.md") ≡ false)
      × IsContained plain (new_path (codes "x/../a.md")) (some docs) docs_file)
validate_safe_path_iff_example =
    validate_safe_path_iff plain (codes "x/../a.md") (some docs) docs_file plain-IsCanonical

-- In this file system a path with `..` that stays below its base is let through, and one that leaves
-- it is not.
stays_below : validate_safe_path plain (codes "x/../a.md") (some docs) ≡ safe docs_file
unfolding new_path starts_at_root components_from add_component text_eq all_but_last
    validate_safe_path check_from base_of check_under join is_under same_root begins_with
stays_below = refl

leaves : validate_safe_path plain (codes "../x.md") (some docs) ≡ refused escapes
unfolding new_path starts_at_root components_from add_component text_eq all_but_last
    validate_safe_path check_from base_of check_under join is_under same_root begins_with
leaves = refl

relative : (new_path (codes "docs/a.md")).is_absolute ≡ false
unfolding new_path starts_at_root
relative = refl

docs_is_base : base_dir_of (codes "docs/a.md") ≡ some docs
unfolding base_dir_of new_path starts_at_root components_from add_component text_eq parent
    all_but_last unless_empty is_empty_path
docs_is_base = refl

is_let_through :
    validate_safe_path file_system (codes "docs/a.md") (base_dir_of (codes "docs/a.md"))
    ≡ safe docs_twice
unfolding base_dir_of new_path starts_at_root components_from add_component text_eq parent
    all_but_last unless_empty is_empty_path validate_safe_path check_from base_of check_under join
    is_under same_root begins_with
is_let_through = refl

validate_safe_path-twice_example :
    (f : Text) × ((new_path (codes "docs/a.md")).components ≡ docs.components ++ f ∷ [])
    × (file_system.canonicalize (record {
      is_absolute = false;
      components = docs.components ++ (docs.components ++ f ∷ []);
    })
        ≡ some docs_twice)
validate_safe_path-twice_example =
    validate_safe_path-twice file_system (codes "docs/a.md") docs docs_twice relative docs_is_base
      is_let_through
