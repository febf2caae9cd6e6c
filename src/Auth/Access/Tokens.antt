-- ===== src/Auth/Access/Tokens.antt =====
-- Which bearer tokens an authenticator over a key store lets in.
use wend_rag.Base.{
  ℕ, List, [], ◌∷◌, ◌++◌, Option, none, some, Bool, true, false, not, filter, any, map, is_empty,
  Any, ◌⊎◌, ◌↔◌, ◌≡◌, refl, sym, ap, ◌∙◌, subst, arith, Bool-cases, inl, inr,
}
use wend_rag.Base.Text.{Text, trim}
use wend_rag.Auth.Keys.{as_bytes, hash_key, generate_key_material}
use wend_rag.Auth.ConstantTime.{ct_eq_iff}
use wend_rag.Auth.Store.{
  StoredKey, KeyStore, has_name, stored_key, Entropy, ok, err, AuthError, add_key, revoke,
}
use wend_rag.Auth.Store.Names.{add_key-AddsOrFails}
use wend_rag.Auth.Access.{new, hash_static, matches, matches_static, validate}

module _ (sha256 : List ℕ → List ℕ) where
  -- The key's stored hash is that of the token.
  abbrev pub IsHashOf : Text → Text → Type 0
  IsHashOf token h = as_bytes h ≡ as_bytes (hash_key sha256 token)

  any_iff :
      (token : Text) (keys : KeyStore)
      → (any (matches (hash_key sha256 token)) (map (λ k. k.key_hash) keys) ≡ true)
        ↔ Any (λ k. IsHashOf token k.key_hash) keys
  any_iff token keys = (to keys, from keys)
    where
      to :
          (ks : KeyStore)
          → any (matches (hash_key sha256 token)) (map (λ k. k.key_hash) ks) ≡ true
          → Any (λ k. IsHashOf token k.key_hash) ks
      to [] h = absurd (ground (arith, h))
      to (k ∷ ks) h =
          let same = ct_eq_iff (as_bytes k.key_hash) (as_bytes (hash_key sha256 token)) in
          elim (Bool-cases (matches (hash_key sha256 token) k.key_hash)) [
            | inl e ↦ inl (same.0 (unfold matches in e))
            | inr e ↦ inr (to ks (ground (arith, e, h)))
          ]

      from :
          (ks : KeyStore)
          → Any (λ k. IsHashOf token k.key_hash) ks
          → any (matches (hash_key sha256 token)) (map (λ k. k.key_hash) ks) ≡ true
      from [] h = absurd h
      from (k ∷ ks) (inl h) =
          let e : matches (hash_key sha256 token) k.key_hash ≡ true =
            unfold matches in
            (ct_eq_iff (as_bytes k.key_hash) (as_bytes (hash_key sha256 token))).1 h in
          ground (arith, e)
      from (k ∷ ks) (inr h) = ground (arith, from ks h)

  -- The static key, trimmed and not empty, has the token's hash.
  abbrev pub IsStatic : Text → Option Text → Type 0
  IsStatic token none = ⊥
  IsStatic token (some key) =
      (is_empty (trim key) ≡ false) × IsHashOf token (hash_key sha256 (trim key))

  matches_static_iff :
      (token : Text) (key : Option Text)
      → (matches_static (hash_key sha256 token) (hash_static sha256 key) ≡ true)
        ↔ IsStatic token key
  unfolding matches_static hash_static
  matches_static_iff token none = ground arith
  matches_static_iff token (some key) =
      let same =
        ct_eq_iff (as_bytes (hash_key sha256 (trim key))) (as_bytes (hash_key sha256 token)) in
      elim (Bool-cases (is_empty (trim key))) [
        | inl e ↦ rw e (ground arith)
        | inr e ↦
            rw e ((λ h. (refl, same.0 (unfold matches in h))), (λ h. unfold matches in same.1 h.1))
      ]

  -- An authenticator made of a static key and a store lets a token in if and only if its hash is
  -- that of the static key, trimmed and not empty, or the hash of a stored key.
  pub validate_iff :
      (static_key : Option Text) (keys : KeyStore) (token : Text)
      → (validate sha256 (new sha256 static_key keys) token ≡ true)
        ↔ (IsStatic token static_key ⊎ Any (λ k. IsHashOf token k.key_hash) keys)
  unfolding validate new
  validate_iff static_key keys token =
      let by_static = matches_static_iff token static_key in
      let by_store = any_iff token keys in
      elim (Bool-cases (matches_static (hash_key sha256 token) (hash_static sha256 static_key))) [
        | inl e ↦ rw e ((λ h. inl (by_static.0 e)), (λ h. refl))
        | inr e ↦ rw e (
          (λ h. inr (by_store.0 h)),
          (λ h. elim h [
            | inl s ↦ absurd (ground (arith, e, by_static.1 s))
            | inr k ↦ by_store.1 k
          ]),
        )
      ]

  Any-last :
      (P : StoredKey → Type 0) (keys : KeyStore) (k : StoredKey) → P k → Any P (keys ++ k ∷ [])
  Any-last P [] k h = inl h
  Any-last P (j ∷ ks) k h = inr (Any-last P ks k h)

  -- A key that `add_key` returns is let in by an authenticator made of the store it leaves.
  pub validate-add_key :
      (static_key : Option Text) (entropy : Entropy) (now : ℕ) (name raw : Text) (keys : KeyStore)
      → (add_key sha256 entropy now name keys).0 ≡ ok raw
      → validate sha256 (new sha256 static_key (add_key sha256 entropy now name keys).1) raw ≡ true
  validate-add_key static_key entropy now name raw keys h =
      elim (add_key-AddsOrFails sha256 entropy now name keys) [
        | inl (e, out) ↦ absurd (err-ok e raw (ap (λ p. p.0) (sym out) ∙ h))
        | inr (bytes, filled_e, full, new_name, out) ↦
            let same : generate_key_material bytes ≡ raw =
              ok-injective (ap (λ p. p.0) (sym out) ∙ h) in
            let key = stored_key sha256 (trim name) (generate_key_material bytes) now in
            let own : IsHashOf raw key.key_hash =
              unfold stored_key in ap (λ t. as_bytes (hash_key sha256 t)) same in
            let there = Any-last (λ k. IsHashOf raw k.key_hash) keys key own in
            subst (λ p. validate sha256 (new sha256 static_key p.1) raw ≡ true) (sym out)
              ((validate_iff static_key (keys ++ key ∷ []) raw).1 (inr there))
      ]
    where
      err-ok : (e : AuthError) (t : Text) → err e ≡ ok t → ⊥
      err-ok e t p = cc

      ok-injective : {s t : Text} → ok s ≡ ok t → s ≡ t
      ok-injective p = cc

  Any-filter :
      (P : StoredKey → Type 0) (p : StoredKey → Bool) (keys : KeyStore)
      → Any P (filter (λ k. not (p k)) keys) ↔ Any (λ k. (p k ≡ false) × P k) keys
  Any-filter P p [] = ground arith
  Any-filter P p (k ∷ ks) =
      let rest = Any-filter P p ks in
      elim (Bool-cases (p k)) [
        | inl e ↦ rw e (
          (λ h. inr (rest.0 h)),
          (λ h. elim h [ inl q ↦ absurd (ground arith) | inr r ↦ rest.1 r ]),
        )
        | inr e ↦ rw e (
          (λ h. elim h [ inl q ↦ inl (refl, q) | inr r ↦ inr (rest.0 r) ]),
          (λ h. elim h [ inl q ↦ inl q.1 | inr r ↦ inr (rest.1 r) ]),
        )
      ]

  revoke-keys :
      (name : Text) (keys : KeyStore)
      → (revoke name keys).1 ≡ filter (λ k. not (has_name (trim name) k)) keys
  unfolding revoke
  revoke-keys name keys = ground arith

  -- After a revocation, with no static key, exactly the tokens are let in whose hash is that of a
  -- stored key of another name than the one revoked.
  pub validate-revoke_iff :
      (name : Text) (keys : KeyStore) (token : Text)
      → (validate sha256 (new sha256 none (revoke name keys).1) token ≡ true)
        ↔ Any (λ k. (has_name (trim name) k ≡ false) × IsHashOf token k.key_hash) keys
  validate-revoke_iff name keys token =
      let left = validate_iff none (revoke name keys).1 token in
      let kept = Any-filter (λ k. IsHashOf token k.key_hash) (has_name (trim name)) keys in
      let same = revoke-keys name keys in
      (
        (λ h. elim (left.0 h) [
          | inl s ↦ absurd s
          | inr a ↦ kept.0 (subst (Any (λ k. IsHashOf token k.key_hash)) same a)
        ]),
        (λ h. left.1 (inr (subst (Any (λ k. IsHashOf token k.key_hash)) (sym same) (kept.1 h)))),
      )
