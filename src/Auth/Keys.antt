-- ===== src/Auth/Keys.antt =====
-- auth.rs: making a key, hashing it, and comparing hashes. SHA-256 is a parameter, as the bytes
-- that the operating system's generator gives are an argument.
use Prim.Native.Nat.{bit_or, bit_xor}
use wend_rag.Base.{
  ℕ, ◌+◌, ◌/◌, ◌%◌, List, [], ◌∷◌, ◌++◌, Bool, false, ltb, ◌==◌, if◌then◌else◌, length, take, drop,
}
use wend_rag.Base.Text.{Text, codes}

abbrev pub key_prefix : Text
key_prefix = codes "wrag_"

abbrev pub key_random_bytes : ℕ
key_random_bytes = 32

-- The bytes of a text in UTF-8, `str::as_bytes`.
unfoldable pub utf8_char : ℕ → List ℕ
utf8_char c =
    if ltb c 0x80
    then c ∷ []
    else if ltb c 0x800
    then (0xc0 + c / 64) ∷ (0x80 + c % 64) ∷ []
    else if ltb c 0x10000
    then (0xe0 + c / 4096) ∷ (0x80 + (c / 64) % 64) ∷ (0x80 + c % 64) ∷ []
    else (0xf0 + c / 262144)
      ∷ (0x80 + (c / 4096) % 64)
      ∷ (0x80 + (c / 64) % 64)
      ∷ (0x80 + c % 64)
      ∷ []

unfoldable pub as_bytes : Text → List ℕ
unfolding utf8_char
as_bytes [] = []
as_bytes (c ∷ s) = utf8_char c ++ as_bytes s

unfoldable pub hex_digit : ℕ → ℕ
hex_digit d = if ltb d 10 then 48 + d else 87 + d

-- `{b:02x}` of every byte
unfoldable pub hex : List ℕ → Text
unfolding hex_digit
hex [] = []
hex (b ∷ bs) = hex_digit (b / 16) ∷ hex_digit (b % 16) ∷ hex bs

unfoldable pub generate_key_material : List ℕ → Text
unfolding hex
generate_key_material bytes = key_prefix ++ hex bytes

-- The first eight characters of the key's body, after `wrag_`.
unfoldable pub display_prefix : Text → Text
display_prefix raw = key_prefix ++ take 8 (drop (length key_prefix) raw)

unfoldable pub hash_key : (List ℕ → List ℕ) → Text → Text
unfolding hex as_bytes
hash_key sha256 key = hex (sha256 (as_bytes key))

-- `diff |= x ^ y` over both slices
unfoldable pub diff_loop : ℕ → List ℕ → List ℕ → ℕ
diff_loop diff [] b = diff
diff_loop diff (x ∷ a) [] = diff
diff_loop diff (x ∷ a) (y ∷ b) = diff_loop (bit_or diff (bit_xor x y)) a b

unfoldable pub ct_eq : List ℕ → List ℕ → Bool
unfolding diff_loop
ct_eq a b = if length a == length b then diff_loop 0 a b == 0 else false
