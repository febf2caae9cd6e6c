-- ===== src/Ingest/Reader.antt =====
-- ingest/reader.rs: which type a source has, and the check of a path before it is read. The file system
-- and the URL parser are parameters; the parsers of the formats are not modelled. `std::path` is that
-- of Unix.
pub mod Steps
pub mod SafePath
use wend_rag.Base.{
  ℕ, List, [], ◌∷◌, ◌++◌, Option, none, some, Bool, true, false, not, ◌==◌, ◌&&◌, ◌||◌, any,
  is_empty, if◌then◌else◌,
}
use wend_rag.Base.Text.{Text, codes, text_eq}
use wend_rag.Base.Unicode.{Unicode}

-- `std::path::Path`: whether it begins at the root, and its components.
pub record FilePath : Type 0 where
  pub is_absolute : Bool
  pub components : List Text

-- A piece that is empty or `.` is no component, but for a `.` at the beginning, which a `.` of the
-- current directory before the others does not change.
unfoldable pub add_component : Text → List Text → List Text
add_component piece cs = if is_empty piece || text_eq piece (codes ".") then cs else piece ∷ cs

-- The components from the piece that is begun on, its characters in order.
unfoldable pub components_from : Text → Text → List Text
components_from piece [] = add_component piece []
components_from piece (c ∷ s) =
    let rest = components_from [] s in
    let longer = components_from (piece ++ c ∷ []) s in
    if c == 47 then add_component piece rest else longer

unfoldable pub starts_at_root : Text → Bool
starts_at_root [] = false
starts_at_root (c ∷ s) = c == 47

-- `Path::new`
unfoldable pub new_path : Text → FilePath
new_path s = record { is_absolute = starts_at_root s; components = components_from [] s }

-- `Path::join`: an absolute path replaces the base.
unfoldable pub join : FilePath → FilePath → FilePath
join base path =
    if path.is_absolute
    then path
    else record { is_absolute = base.is_absolute; components = base.components ++ path.components }

unfoldable pub all_but_last : List Text → List Text
all_but_last [] = []
all_but_last (c ∷ []) = []
all_but_last (c ∷ d ∷ cs) = c ∷ all_but_last (d ∷ cs)

-- `Path::parent`, none at the root and of the empty path
unfoldable pub parent : FilePath → Option FilePath
parent p =
    if is_empty p.components
    then none
    else some record { is_absolute = p.is_absolute; components = all_but_last p.components }

unfoldable pub begins_with : List Text → List Text → Bool
begins_with cs [] = true
begins_with [] (d ∷ ds) = false
begins_with (c ∷ cs) (d ∷ ds) = text_eq c d && begins_with cs ds

unfoldable pub same_root : Bool → Bool → Bool
same_root true b = b
same_root false true = false
same_root false false = true

-- `Path::starts_with`
unfoldable pub is_under : FilePath → FilePath → Bool
is_under path base =
    same_root path.is_absolute base.is_absolute && begins_with path.components base.components

-- The current directory, and `canonicalize`, which fails where there is no such file.
pub record FileSystem : Type 0 where
  pub current_dir : Option FilePath
  pub canonicalize : FilePath → Option FilePath

pub data PathRefusal : Type 0 where
  null_byte no_current_dir no_base not_resolved escapes : PathRefusal

pub data Checked : Type 0 where
  safe : FilePath → Checked
  refused : PathRefusal → Checked

unfoldable pub check_under : Option FilePath → Option FilePath → Checked
check_under none path = refused no_base
check_under (some base) none = refused not_resolved
check_under (some base) (some path) = if is_under path base then safe path else refused escapes

unfoldable pub base_of : FileSystem → Option FilePath → Option FilePath
base_of fs none = fs.current_dir
base_of fs (some base) = some base

unfoldable pub check_from : FileSystem → FilePath → Option FilePath → Checked
check_from fs path none = refused no_current_dir
check_from fs path (some base) =
    check_under (fs.canonicalize base) (fs.canonicalize (join base path))

unfoldable pub validate_safe_path : FileSystem → Text → Option FilePath → Checked
validate_safe_path fs path base_dir =
    if any (λ c. c == 0) path
    then refused null_byte
    else check_from fs (new_path path) (base_of fs base_dir)

-- The base that `ingest_file` of pipeline.rs gives: the path's parent, unless that is empty.
unfoldable pub is_empty_path : FilePath → Bool
is_empty_path p = is_empty p.components && not p.is_absolute

unfoldable pub unless_empty : Option FilePath → Option FilePath
unless_empty none = none
unless_empty (some p) = if is_empty_path p then none else some p

unfoldable pub base_dir_of : Text → Option FilePath
base_dir_of file_path = unless_empty (parent (new_path file_path))

unfoldable pub last_of : List Text → Option Text
last_of [] = none
last_of (c ∷ []) = some c
last_of (c ∷ d ∷ cs) = last_of (d ∷ cs)

-- What stands behind the last dot, none without a dot.
unfoldable pub after_last_dot : Text → Option Text
after_last_dot [] = none
after_last_dot (c ∷ s) =
    let rest = after_last_dot s in
    elim rest [ some e ↦ some e | none ↦ if c == 46 then some s else none ]

unfoldable pub file_stem_is_empty : Text → Bool
file_stem_is_empty [] = true
file_stem_is_empty (c ∷ s) = c == 46 && not (any (λ d. d == 46) s)

-- `Path::extension`, none of `..` and of a name whose only dot is its first character
unfoldable pub extension : FilePath → Option Text
extension p = elim (last_of p.components) [
  | none ↦ none
  | some name ↦
      if text_eq name (codes "..") || file_stem_is_empty name then none else after_last_dot name
]

unfoldable pub one_of : Text → List Text → Bool
one_of t ts = any (text_eq t) ts

unfoldable pub type_of_extension : Text → Option Text
type_of_extension e =
    if one_of e (codes "md" ∷ codes "markdown" ∷ [])
    then some (codes "markdown")
    else if one_of e (codes "txt" ∷ codes "text" ∷ [])
    then some (codes "text")
    else if one_of e (codes "pdf" ∷ codes "docx" ∷ codes "csv" ∷ codes "json" ∷ [])
    then some e
    else none

-- `scheme` is that of the URL, where the text is one.
unfoldable pub is_web_url : (Text → Option Text) → Text → Bool
is_web_url scheme path = elim (scheme path) [
  | none ↦ false
  | some s ↦ one_of s (codes "http" ∷ codes "https" ∷ [])
]

unfoldable pub detect_file_type : Unicode → (Text → Option Text) → Text → Option Text
detect_file_type u scheme path =
    if is_web_url scheme path then some (codes "url") else elim (extension (new_path path)) [
      | none ↦ none
      | some e ↦ type_of_extension (u.to_lowercase e)
    ]
