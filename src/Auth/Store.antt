-- ===== src/Auth/Store.antt =====
-- auth.rs: `KeyStore`. A failing operation returns its error with the store it leaves behind. An
-- error that wraps one of another library carries its text.
pub mod Names
use wend_rag.Base.{
  ℕ, List, [], ◌∷◌, ◌++◌, Option, none, some, Bool, true, false, ◌==◌, ◌||◌, not, if◌then◌else◌,
  length, filter, any, is_empty,
}
use wend_rag.Base.Text.{Text, codes, trim, text_eq, ends_with}
use wend_rag.Auth.Keys.{generate_key_material, display_prefix, hash_key}

pub data AuthError : Type 0 where
  io : Text → AuthError
  json : Text → AuthError
  random : Text → AuthError
  duplicate_name : Text → AuthError
  not_found : Text → AuthError
  empty_name : AuthError
  no_keys_path : AuthError

pub data Reply (A : Type 0) : Type 0 where
  ok : A → Reply A
  err : AuthError → Reply A

pub record StoredKey : Type 0 where
  pub name : Text
  pub key_prefix : Text
  pub key_hash : Text
  pub created_at : ℕ

abbrev pub KeyStore : Type 0
KeyStore = List StoredKey

unfoldable pub has_name : Text → StoredKey → Bool
has_name name k = text_eq k.name name

unfoldable pub stored_key : (List ℕ → List ℕ) → Text → Text → ℕ → StoredKey
stored_key sha256 name raw now = record {
  name = name;
  key_prefix = display_prefix raw;
  key_hash = hash_key sha256 raw;
  created_at = now;
}

-- `entropy` is what `getrandom::fill` gives: its error's text, or the bytes.
pub data Entropy : Type 0 where
  failed : Text → Entropy
  filled : List ℕ → Entropy

unfoldable pub add_key : (List ℕ → List ℕ) → Entropy → ℕ → Text → KeyStore → Reply Text × KeyStore
unfolding has_name
add_key sha256 entropy now name keys =
    let trimmed = trim name in
    if is_empty trimmed
    then (err empty_name, keys)
    else if any (has_name trimmed) keys
    then (err (duplicate_name trimmed), keys)
    else elim entropy [
      | failed e ↦ (err (random e), keys)
      | filled bytes ↦
          let raw = generate_key_material bytes in
          (ok raw, keys ++ stored_key sha256 trimmed raw now ∷ [])
    ]

-- `retain` comes first, and its effect stays when the error is returned.
unfoldable pub revoke : Text → KeyStore → Reply Unit × KeyStore
unfolding has_name
revoke name keys =
    let trimmed = trim name in
    let kept = filter (λ k. not (has_name trimmed k)) keys in
    if length kept == length keys then (err (not_found trimmed), kept) else (ok tt, kept)

-- What `fs::read` gives: the file's bytes, or the error, apart when there is no file.
pub data FileRead : Type 0 where
  contents : List ℕ → FileRead
  missing : FileRead
  broken : Text → FileRead

-- `u8::is_ascii_whitespace`
unfoldable pub is_ascii_whitespace : ℕ → Bool
is_ascii_whitespace b = b == 32 || b == 9 || b == 10 || b == 12 || b == 13

-- `serde_json::from_slice` is the parameter `parse`.
unfoldable pub load_from : (List ℕ → Reply KeyStore) → FileRead → Reply KeyStore
unfolding is_ascii_whitespace
load_from parse (contents bytes) =
    if any (λ b. not (is_ascii_whitespace b)) bytes then parse bytes else ok []
load_from parse missing = ok []
load_from parse (broken e) = err (io e)

-- `Path::join` of a relative path
unfoldable pub join_path : Text → Text → Text
unfolding ends_with
join_path base path =
    if is_empty base || ends_with base (codes "/") then base ++ path else base ++ codes "/" ++ path

-- On Unix: the file that the environment names, or the one in the home directory.
unfoldable pub home_keys_path : Option Text → Option Text
unfolding join_path
home_keys_path none = none
home_keys_path (some home) =
    some (join_path (join_path home (codes ".wend-rag")) (codes "keys.json"))

unfoldable pub default_keys_path : Option Text → Option Text → Option Text
unfolding home_keys_path
default_keys_path none home = home_keys_path home
default_keys_path (some explicit) home =
    if is_empty explicit then home_keys_path home else some explicit

-- `read` is the file system.
unfoldable pub load_default :
    (List ℕ → Reply KeyStore) → (Text → FileRead) → Option Text → Option Text → Reply KeyStore
load_default parse read explicit home = elim (default_keys_path explicit home) [
  | none ↦ err no_keys_path
  | some path ↦ load_from parse (read path)
]
