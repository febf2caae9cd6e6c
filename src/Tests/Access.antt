-- ===== src/Tests/Access.antt =====
-- auth.rs with a digest that gives the bytes back.
use wend_rag.Base.{ℕ, List, [], ◌∷◌, none, some, true, false, ◌≡◌, ◌↔◌, ◌⊎◌, refl, Any}
use wend_rag.Base.Text.{codes, trim, trim_start, trim_end, is_whitespace}
use wend_rag.Auth.Keys.{ct_eq, generate_key_material, hex, hex_digit}
use wend_rag.Auth.ConstantTime.{ct_eq_iff}
use wend_rag.Auth.Store.{KeyStore, stored_key, failed, filled, ok, add_key, revoke, has_name}
use wend_rag.Auth.Store.Names.{
  AddsOrFails, add_key-AddsOrFails, RevokesOne, revoke-RevokesOne, HasUniqueNames, Call, add,
  remove, run, run-HasUniqueNames,
}
use wend_rag.Auth.Access.{new, validate}
use wend_rag.Auth.Access.Tokens.{
  IsStatic, IsHashOf, validate_iff, validate-add_key, validate-revoke_iff,
}

abbrev digest : List ℕ → List ℕ
digest bytes = bytes

abbrev left : List ℕ
left = 1 ∷ 2 ∷ []

abbrev right : List ℕ
right = 1 ∷ 3 ∷ []

ct_eq_iff_example : (ct_eq left right ≡ true) ↔ (left ≡ right)
ct_eq_iff_example = ct_eq_iff left right

abbrev keys : KeyStore
keys =
    stored_key digest (codes "laptop") (codes "wrag_01") 5
    ∷ stored_key digest (codes "phone") (codes "wrag_02") 6
    ∷ []

add_key-AddsOrFails_example :
    AddsOrFails digest
      (filled (171 ∷ []))
      7
      (codes " desk ")
      keys
      (add_key digest (filled (171 ∷ [])) 7 (codes " desk ") keys)
add_key-AddsOrFails_example = add_key-AddsOrFails digest (filled (171 ∷ [])) 7 (codes " desk ") keys

abbrev calls : List Call
calls =
    add (filled (1 ∷ [])) 1 (codes "a")
    ∷ add (filled (2 ∷ [])) 2 (codes " a")
    ∷ remove (codes "a ")
    ∷ add (failed (codes "no entropy")) 3 (codes "b")
    ∷ add (filled (3 ∷ [])) 4 (codes "b")
    ∷ []

run-HasUniqueNames_example : HasUniqueNames (run digest calls [])
run-HasUniqueNames_example = run-HasUniqueNames digest calls

revoke-RevokesOne_example :
    RevokesOne (codes "b ") (run digest calls []) (revoke (codes "b ") (run digest calls []))
revoke-RevokesOne_example =
    revoke-RevokesOne (codes "b ") (run digest calls []) (run-HasUniqueNames digest calls)

validate_iff_example :
    (validate digest (new digest (some (codes " wrag_00 ")) keys) (codes "wrag_02") ≡ true) ↔ (
      IsStatic digest (codes "wrag_02") (some (codes " wrag_00 "))
      ⊎ Any (λ k. IsHashOf digest (codes "wrag_02") k.key_hash) keys)
validate_iff_example = validate_iff digest (some (codes " wrag_00 ")) keys (codes "wrag_02")

added : (add_key digest (filled (171 ∷ [])) 7 (codes " desk ") []).0 ≡ ok (codes "wrag_ab")
unfolding add_key has_name trim trim_start trim_end is_whitespace generate_key_material hex
    hex_digit
added = refl

validate-add_key_example :
    validate digest
      (new digest none (add_key digest (filled (171 ∷ [])) 7 (codes " desk ") []).1)
      (codes "wrag_ab")
    ≡ true
validate-add_key_example =
    validate-add_key digest none (filled (171 ∷ [])) 7 (codes " desk ") (codes "wrag_ab") [] added

validate-revoke_iff_example :
    (validate digest (new digest none (revoke (codes "phone") keys).1) (codes "wrag_02") ≡ true)
    ↔ Any
        (λ k.
          (has_name (trim (codes "phone")) k ≡ false)
          × IsHashOf digest (codes "wrag_02") k.key_hash)
        keys
validate-revoke_iff_example = validate-revoke_iff digest (codes "phone") keys (codes "wrag_02")
