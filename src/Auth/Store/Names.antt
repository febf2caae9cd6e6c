-- ===== src/Auth/Store/Names.antt =====
-- The names of a key store: each stands once, and is what `revoke` goes by.
use wend_rag.Base.{
  ℕ, suc, ◌+◌, ◌≤◌, List, [], ◌∷◌, ◌++◌, Bool, false, ◌==◌, ==_iff, not, length, filter, any,
  is_empty, ◌⊎◌, ◌≡◌, refl, sym, ap, ◌∙◌, subst, arith, Bool-cases, inl, inr, length-append,
  filter-append,
}
use wend_rag.Base.Text.{Text, trim}
use wend_rag.Base.Text.Laws.{text_eq_iff}
use wend_rag.Auth.Keys.{generate_key_material}
use wend_rag.Auth.Store.{
  StoredKey, KeyStore, has_name, stored_key, Entropy, failed, filled, Reply, ok, err, AuthError,
  empty_name, duplicate_name, random, not_found, add_key, revoke,
}

-- How many keys have the name.
abbrev pub count_of : Text → KeyStore → ℕ
count_of name keys = length (filter (has_name name) keys)

abbrev pub HasUniqueNames : KeyStore → Type 0
HasUniqueNames keys = (name : Text) → count_of name keys ≤ 1

count_of-none :
    (name : Text) (keys : KeyStore) → any (has_name name) keys ≡ false → count_of name keys ≡ 0
count_of-none name [] h = refl
count_of-none name (k ∷ ks) h = ground (arith, count_of-none name ks)

push-HasUniqueNames :
    (k : StoredKey) (keys : KeyStore)
    → any (has_name k.name) keys ≡ false
    → HasUniqueNames keys
    → HasUniqueNames (keys ++ k ∷ [])
push-HasUniqueNames k keys new_name h name =
    let split =
      ap length (filter-append (has_name name) keys (k ∷ []))
      ∙ length-append (filter (has_name name) keys) (filter (has_name name) (k ∷ [])) in
    let old = h name in
    elim (Bool-cases (has_name name k)) [
      | inl e ↦
          let same : k.name ≡ name =
            unfold has_name in (text_eq_iff k.name name).0 (unfold has_name in e) in
          let zero_old = count_of-none k.name keys new_name in
          let zero_now : count_of name keys ≡ 0 = ap (λ t. count_of t keys) (sym same) ∙ zero_old in
          let one : length (filter (has_name name) (k ∷ [])) ≡ 1 = ground (arith, e) in omega arith
      | inr e ↦
          let none_new : length (filter (has_name name) (k ∷ [])) ≡ 0 = ground (arith, e) in
          omega arith
    ]

-- Filtering by another test keeps no more.
count_of-filter :
    (name : Text) (p : StoredKey → Bool) (keys : KeyStore)
    → count_of name (filter p keys) ≤ count_of name keys
count_of-filter name p [] = omega arith
count_of-filter name p (k ∷ ks) = ground (arith, count_of-filter name p ks)

length-filter-not :
    (p : StoredKey → Bool) (keys : KeyStore)
    → length (filter (λ k. not (p k)) keys) + length (filter p keys) ≡ length keys
length-filter-not p [] = omega arith
length-filter-not p (k ∷ ks) = ground (arith, length-filter-not p ks)

count_of-removed :
    (name : Text) (keys : KeyStore) → count_of name (filter (λ k. not (has_name name k)) keys) ≡ 0
count_of-removed name [] = refl
count_of-removed name (k ∷ ks) = ground (arith, count_of-removed name ks)

filter-all :
    (p : StoredKey → Bool) (keys : KeyStore)
    → length (filter p keys) ≡ 0
    → filter (λ k. not (p k)) keys ≡ keys
filter-all p [] h = refl
filter-all p (k ∷ ks) h = elim (Bool-cases (p k)) [
  | inl e ↦ absurd (ground (arith, e, h))
  | inr e ↦ let rest = filter-all p ks (ground (arith, e, h)) in rw e (ap (λ t. k ∷ t) rest)
]

-- What `add_key` gives, with its branches apart.
abbrev pub AddsOrFails :
    (List ℕ → List ℕ) → Entropy → ℕ → Text → KeyStore → Reply Text × KeyStore → Type 0
AddsOrFails sha256 entropy now name keys out =
    ((e : AuthError) × (out ≡ (err e, keys)))
    ⊎ ((bytes : List ℕ) × (entropy ≡ filled bytes)
        × (is_empty (trim name) ≡ false)
        × (any (has_name (trim name)) keys ≡ false)
        × (out ≡ (
          ok (generate_key_material bytes),
          keys ++ stored_key sha256 (trim name) (generate_key_material bytes) now ∷ [],
        )))

-- Adding a key either fails and leaves the store as it was, or the name, trimmed, is not empty and
-- no stored key has it, and the store has one more key at its end, with that name and the hash of
-- the key that is returned.
pub add_key-AddsOrFails :
    (sha256 : List ℕ → List ℕ) (entropy : Entropy) (now : ℕ) (name : Text) (keys : KeyStore)
    → AddsOrFails sha256 entropy now name keys (add_key sha256 entropy now name keys)
unfolding add_key
add_key-AddsOrFails sha256 (failed t) now name keys = elim (Bool-cases (is_empty (trim name))) [
  | inl e ↦ inl (empty_name, rw e refl)
  | inr e ↦ elim (Bool-cases (any (has_name (trim name)) keys)) [
    | inl d ↦ inl (duplicate_name (trim name), rw (e, d) refl)
    | inr d ↦ inl (random t, rw (e, d) refl)
  ]
]
add_key-AddsOrFails sha256 (filled bytes) now name keys = elim (Bool-cases (is_empty (trim name))) [
  | inl e ↦ inl (empty_name, rw e refl)
  | inr e ↦ elim (Bool-cases (any (has_name (trim name)) keys)) [
    | inl d ↦ inl (duplicate_name (trim name), rw (e, d) refl)
    | inr d ↦ inr (bytes, refl, e, d, rw (e, d) refl)
  ]
]

-- What `revoke` gives, with its branches apart.
abbrev pub RevokesOne : Text → KeyStore → Reply Unit × KeyStore → Type 0
RevokesOne name keys out =
    ((out ≡ (err (not_found (trim name)), keys)) × (count_of (trim name) keys ≡ 0))
    ⊎ ((out.0 ≡ ok tt)
        × (length keys ≡ suc (length out.1))
        × (out.1 ≡ filter (λ k. not (has_name (trim name) k)) keys)
        × (count_of (trim name) out.1 ≡ 0))

-- Of a store with unique names, `revoke` either finds no key of the trimmed name and leaves the
-- store as it was, with the error, or removes exactly one key and leaves none of that name; keys
-- of other names stay, in their order.
pub revoke-RevokesOne :
    (name : Text) (keys : KeyStore) → HasUniqueNames keys → RevokesOne name keys (revoke name keys)
unfolding revoke
revoke-RevokesOne name keys h =
    let kept = filter (λ k. not (has_name (trim name) k)) keys in
    let parts = length-filter-not (has_name (trim name)) keys in
    let one = h (trim name) in
    elim (Bool-cases (length kept == length keys)) [
      | inl e ↦
          let same = (==_iff (length kept) (length keys)).0 e in
          let absent : count_of (trim name) keys ≡ 0 = omega arith in
          let all_kept = filter-all (has_name (trim name)) keys absent in
          inl (rw e (ap (λ t. (err (not_found (trim name)), t)) all_kept), absent)
      | inr e ↦
          let less : length keys ≡ suc (length kept) = ground (arith, e, parts, one) in
          inr (rw e (refl, less, refl, count_of-removed (trim name) keys))
    ]

pub data Call : Type 0 where
  add : Entropy → ℕ → Text → Call
  remove : Text → Call

abbrev pub call : (List ℕ → List ℕ) → Call → KeyStore → KeyStore
call sha256 (add entropy now name) keys = (add_key sha256 entropy now name keys).1
call sha256 (remove name) keys = (revoke name keys).1

abbrev pub run : (List ℕ → List ℕ) → List Call → KeyStore → KeyStore
run sha256 [] keys = keys
run sha256 (c ∷ cs) keys = run sha256 cs (call sha256 c keys)

call-HasUniqueNames :
    (sha256 : List ℕ → List ℕ) (c : Call) (keys : KeyStore)
    → HasUniqueNames keys
    → HasUniqueNames (call sha256 c keys)
call-HasUniqueNames sha256 (add entropy now name) keys h =
    elim (add_key-AddsOrFails sha256 entropy now name keys) [
      | inl (e, out) ↦ subst (λ p. HasUniqueNames p.1) (sym out) h
      | inr (bytes, filled_e, full, new_name, out) ↦
          let key = stored_key sha256 (trim name) (generate_key_material bytes) now in
          subst (λ p. HasUniqueNames p.1) (sym out)
            (push-HasUniqueNames key keys (unfold stored_key in new_name) h)
    ]
call-HasUniqueNames sha256 (remove name) keys h = elim (revoke-RevokesOne name keys h) [
  | inl (out, absent) ↦ subst (λ p. HasUniqueNames p.1) (sym out) h
  | inr (done, less, out, gone) ↦
      subst HasUniqueNames (sym out)
        (λ n. omega (arith, count_of-filter n (λ k. not (has_name (trim name) k)) keys, h n))
]

-- Whatever keys are added to an empty store and revoked, in any order, with or without errors, no
-- two stored keys have one name.
pub run-HasUniqueNames :
    (sha256 : List ℕ → List ℕ) (cs : List Call) → HasUniqueNames (run sha256 cs [])
run-HasUniqueNames sha256 cs = from cs [] (λ n. omega arith)
  where
    from :
        (cs : List Call) (keys : KeyStore)
        → HasUniqueNames keys
        → HasUniqueNames (run sha256 cs keys)
    from [] keys h = h
    from (c ∷ cs) keys h = from cs (call sha256 c keys) (call-HasUniqueNames sha256 c keys h)
