-- ===== src/Text/Utf8.antt =====
-- `str::from_utf8`: the decoder as a machine over bytes. Every string of characters is read back
-- from its bytes.
use c_questdb_client.Base.{
  ◌∙◌, ℕ, zero, suc, ◌+◌, ◌-◌, ◌*◌, ◌/◌, ◌%◌, ◌≡◌, ◌≤◌, ◌<◌, ◌⊎◌, refl, ◌&&◌, Option, none, some,
  [], ◌∷◌, ◌++◌, ltb, leb, ◌==◌, if◌then◌else◌, All, arith, ap,
}
use c_questdb_client.Text.{Str, Bytes, bytes, encode_char}

-- Between characters, or inside one: `left` bytes are wanted behind the next, which lies in a range.
pub data State : Type 0 where
  idle : State
  want : (left acc low high : ℕ) → State

-- The state behind the first byte of a character.
abbrev leading : ℕ → Option State
leading b =
    if leb 0xc2 b && leb b 0xdf
    then some (want 0 (b - 0xc0) 0x80 0xbf)
    else if b == 0xe0
    then some (want 1 0 0xa0 0xbf)
    else if b == 0xed
    then some (want 1 0xd 0x80 0x9f)
    else if leb 0xe1 b && leb b 0xef
    then some (want 1 (b - 0xe0) 0x80 0xbf)
    else if b == 0xf0
    then some (want 2 0 0x90 0xbf)
    else if leb 0xf1 b && leb b 0xf3
    then some (want 2 (b - 0xf0) 0x80 0xbf)
    else if b == 0xf4
    then some (want 2 4 0x80 0x8f)
    else none

abbrev continued : ℕ → ℕ → State × Option ℕ
continued zero c = (idle, some c)
continued (suc left) c = (want left c 0x80 0xbf, none)

step : State → ℕ → Option (State × Option ℕ)
step idle b =
    if ltb b 0x80
    then some (idle, some b)
    else elim (leading b) [ some s ↦ some (s, none) | none ↦ none ]
step (want left acc low high) b =
    if leb low b && leb b high then some (continued left (acc * 64 + (b - 0x80))) else none

abbrev push : Option ℕ → Option Str → Option Str
push none s = s
push (some c) none = none
push (some c) (some s) = some (c ∷ s)

decode_from : State → Bytes → Option Str
unfolding step
decode_from idle [] = some []
decode_from (want left acc low high) [] = none
decode_from st (b ∷ s) = elim (step st b) [
  | none ↦ none
  | some (st', c) ↦ push c (decode_from st' s)
]

unfoldable pub from_utf8 : Bytes → Option Str
unfolding decode_from
from_utf8 s = decode_from idle s

-- A `char`: a code point that is no surrogate.
abbrev pub IsChar : ℕ → Type 0
IsChar c = (c < 0xd800) ⊎ ((0xe000 ≤ c) × (c < 0x11_0000))

decode_step :
    (st st' : State) (o : Option ℕ) (b : ℕ) (s : Bytes)
    → step st b ≡ some (st', o)
    → decode_from st (b ∷ s) ≡ push o (decode_from st' s)
unfolding decode_from
decode_step idle st' o b s h = rw (h, decode_from)
decode_step (want left acc low high) st' o b s h = rw (h, decode_from)

-- The last byte of a character, and one before it.
last_byte :
    (acc low high x c : ℕ) (s : Bytes)
    → low ≤ 0x80 + x
    → 0x80 + x ≤ high
    → acc * 64 + x ≡ c
    → decode_from (want 0 acc low high) ((0x80 + x) ∷ s) ≡ push (some c) (decode_from idle s)
last_byte acc low high x c s lo hi e =
    decode_step (want 0 acc low high) idle (some c) (0x80 + x) s (unfold step in ground arith)

inner_byte :
    (left acc low high x c : ℕ) (s : Bytes)
    → low ≤ 0x80 + x
    → 0x80 + x ≤ high
    → acc * 64 + x ≡ c
    → decode_from (want (suc left) acc low high) ((0x80 + x) ∷ s)
      ≡ decode_from (want left c 0x80 0xbf) s
inner_byte left acc low high x c s lo hi e =
    decode_step (want (suc left) acc low high) (want left c 0x80 0xbf) none (0x80 + x) s
      (unfold step in ground arith)

one_byte :
    (c : ℕ) (s : Bytes) → c < 0x80 → decode_from idle (c ∷ s) ≡ push (some c) (decode_from idle s)
one_byte c s h = decode_step idle idle (some c) c s (unfold step in ground arith)

two_bytes :
    (c : ℕ) (s : Bytes)
    → 0x80 ≤ c
    → c < 0x800
    → decode_from idle ((0xc0 + c / 0x40) ∷ (0x80 + c % 0x40) ∷ s)
      ≡ push (some c) (decode_from idle s)
two_bytes c s lo hi =
    decode_step idle (want 0 (c / 0x40) 0x80 0xbf) none (0xc0 + c / 0x40) ((0x80 + c % 0x40) ∷ s)
      (unfold step in ground arith)
    ∙ last_byte (c / 0x40) 0x80 0xbf (c % 0x40) c s (omega arith) (omega arith) (omega arith)

-- The state behind the first of three bytes.
abbrev lead_three : ℕ → State
lead_three h = want 1 h (if h == 0 then 0xa0 else 0x80) (if h == 0xd then 0x9f else 0xbf)

three_bytes :
    (c : ℕ) (s : Bytes)
    → 0x800 ≤ c
    → c < 0x1_0000
    → IsChar c
    → decode_from idle ((0xe0 + c / 0x1000) ∷ (0x80 + c / 0x40 % 0x40) ∷ (0x80 + c % 0x40) ∷ s)
      ≡ push (some c) (decode_from idle s)
three_bytes c s lo hi h =
    decode_step idle (lead_three (c / 0x1000)) none (0xe0 + c / 0x1000) _
      (unfold step in ground arith)
    ∙ inner_byte 0 (c / 0x1000) _ _ (c / 0x40 % 0x40) (c / 0x40) _ (ground arith) (ground arith)
        (omega arith)
    ∙ last_byte (c / 0x40) 0x80 0xbf (c % 0x40) c s (omega arith) (omega arith) (omega arith)

-- The state behind the first of four bytes.
abbrev lead_four : ℕ → State
lead_four h = want 2 h (if h == 0 then 0x90 else 0x80) (if h == 4 then 0x8f else 0xbf)

four_bytes :
    (c : ℕ) (s : Bytes)
    → 0x1_0000 ≤ c
    → c < 0x11_0000
    → decode_from idle (
        (0xf0 + c / 0x4_0000)
        ∷ (0x80 + c / 0x1000 % 0x40)
        ∷ (0x80 + c / 0x40 % 0x40)
        ∷ (0x80 + c % 0x40)
        ∷ s)
      ≡ push (some c) (decode_from idle s)
four_bytes c s lo hi =
    decode_step idle (lead_four (c / 0x4_0000)) none (0xf0 + c / 0x4_0000) _
      (unfold step in ground arith)
    ∙ inner_byte 1 (c / 0x4_0000) _ _ (c / 0x1000 % 0x40) (c / 0x1000) _ (ground arith)
        (ground arith) (omega arith)
    ∙ inner_byte 0 (c / 0x1000) 0x80 0xbf (c / 0x40 % 0x40) (c / 0x40) _ (omega arith) (omega arith)
        (omega arith)
    ∙ last_byte (c / 0x40) 0x80 0xbf (c % 0x40) c s (omega arith) (omega arith) (omega arith)

decode_char :
    (c : ℕ) (s : Bytes)
    → IsChar c
    → decode_from idle (encode_char c ++ s) ≡ push (some c) (decode_from idle s)
decode_char c s h = ground (arith, one_byte c s, two_bytes c s, three_bytes c s, four_bytes c s)

decode-bytes : (s : Str) → All IsChar s → decode_from idle (bytes s) ≡ some s
unfolding bytes decode_from
decode-bytes [] h = refl
decode-bytes (c ∷ s) (h, hs) = decode_char c (bytes s) h ∙ ap (push (some c)) (decode-bytes s hs)

-- Decoding the UTF-8 bytes of a string gives the string back.
pub from_utf8-bytes : (s : Str) → All IsChar s → from_utf8 (bytes s) ≡ some s
unfolding from_utf8
from_utf8-bytes = decode-bytes
