-- ===== src/Auth/Access.antt =====
-- auth.rs: `Authenticator`, with what a key store's operations do to the tokens it accepts.
pub mod Tokens
use wend_rag.Base.{
  ℕ, ◌+◌, List, [], ◌∷◌, Option, none, some, Bool, true, false, ◌||◌, not, if◌then◌else◌, length,
  any, is_empty, map,
}
use wend_rag.Base.Text.{Text, trim}
use wend_rag.Auth.Keys.{as_bytes, hash_key, ct_eq}
use wend_rag.Auth.Store.{KeyStore, Reply, ok, err, FileRead, load_from, default_keys_path}

pub record Authenticator : Type 0 where
  pub static_key_hash : Option Text
  pub key_hashes : List Text

unfoldable pub hash_static : (List ℕ → List ℕ) → Option Text → Option Text
hash_static sha256 none = none
hash_static sha256 (some key) =
    if is_empty (trim key) then none else some (hash_key sha256 (trim key))

unfoldable pub new : (List ℕ → List ℕ) → Option Text → KeyStore → Authenticator
unfolding hash_static
new sha256 static_key store = record {
  static_key_hash = hash_static sha256 static_key;
  key_hashes = map (λ k. k.key_hash) store;
}

unfoldable pub is_some : Option Text → Bool
is_some none = false
is_some (some h) = true

unfoldable pub is_auth_required : Authenticator → Bool
unfolding is_some
is_auth_required a = is_some a.static_key_hash || not (is_empty a.key_hashes)

unfoldable pub key_count : Authenticator → ℕ
unfolding is_some
key_count a = length a.key_hashes + (if is_some a.static_key_hash then 1 else 0)

unfoldable pub matches : Text → Text → Bool
matches presented_hash h = ct_eq (as_bytes h) (as_bytes presented_hash)

unfoldable pub matches_static : Text → Option Text → Bool
unfolding matches
matches_static presented_hash none = false
matches_static presented_hash (some h) = matches presented_hash h

unfoldable pub validate : (List ℕ → List ℕ) → Authenticator → Text → Bool
unfolding matches_static
validate sha256 a presented =
    let presented_hash = hash_key sha256 presented in
    if matches_static presented_hash a.static_key_hash
    then true
    else any (matches presented_hash) a.key_hashes

-- The loaded store, or the error.
unfoldable pub over_store : (List ℕ → List ℕ) → Option Text → Reply KeyStore → Reply Authenticator
over_store sha256 static_key (err e) = err e
over_store sha256 static_key (ok store) = ok (new sha256 static_key store)

-- `parse` reads JSON and `read` a file; the other arguments are the environment's.
unfoldable pub from_environment :
    (List ℕ → List ℕ)
    → (List ℕ → Reply KeyStore)
    → (Text → FileRead)
    → Option Text
    → Option Text
    → Option Text
    → Reply Authenticator
unfolding over_store
from_environment sha256 parse read explicit home static_key =
    elim (default_keys_path explicit home) [
      | none ↦ ok (new sha256 static_key [])
      | some path ↦ over_store sha256 static_key (load_from parse (read path))
    ]
