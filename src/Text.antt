-- ===== src/Text.antt =====
-- `str` and `String` of the Rust code: a string is its list of characters, and a character is its
-- code point. `bytes` is the UTF-8 encoding in which Rust stores it.
pub mod Utf8
use c_questdb_client.Base.{
  ℕ, ◌+◌, ◌/◌, ◌%◌, ◌≤◌, List, [], ◌∷◌, ltb, if◌then◌else◌, length, flat_map, arith, length-append,
}

abbrev pub Bytes : Type 0
Bytes = List ℕ

abbrev pub Str : Type 0
Str = List ℕ

abbrev pub encode_char : ℕ → Bytes
encode_char c =
    if ltb c 0x80
    then c ∷ []
    else if ltb c 0x800
    then (0xc0 + c / 0x40) ∷ (0x80 + c % 0x40) ∷ []
    else if ltb c 0x1_0000
    then (0xe0 + c / 0x1000) ∷ (0x80 + c / 0x40 % 0x40) ∷ (0x80 + c % 0x40) ∷ []
    else (0xf0 + c / 0x4_0000)
      ∷ (0x80 + c / 0x1000 % 0x40)
      ∷ (0x80 + c / 0x40 % 0x40)
      ∷ (0x80 + c % 0x40)
      ∷ []

unfoldable pub bytes : Str → Bytes
bytes s = flat_map encode_char s

-- `str::len`, the number of bytes
unfoldable pub len : Str → ℕ
unfolding bytes
len s = length (bytes s)

pub length-le-len : (s : Str) → length s ≤ len s
unfolding len
length-le-len [] = omega arith
length-le-len (c ∷ s) =
    omega (arith, length-append (encode_char c) (flat_map encode_char s), length-le-len s, one c)
  where
    one : (c : ℕ) → 1 ≤ length (encode_char c)
    one c = ground arith
