-- ===== src/Buffer/Utf8.antt =====
-- The output of a buffer is a Rust `String`: it stays UTF-8, although `write_escaped_impl` writes it
-- byte by byte behind the back of the type, and a rewind cuts it between two characters.
pub mod Output
pub mod Reached
use c_questdb_client.Base.{
  ℕ, ◌≡◌, ◌≤◌, ◌<◌, refl, sym, Bool, false, [], ◌∷◌, ◌++◌, append-nil, flat_map-append, All,
  All-append, arith, inl, inr, Bool-cases, ltb,
}
use c_questdb_client.Text.{Str, Bytes, bytes, encode_char}
use c_questdb_client.Text.Utf8.{IsChar}
use c_questdb_client.Escape.{must_escape_unquoted, must_escape_quoted}
use c_questdb_client.Escape.InPlace.{escape, escape_byte}

-- The bytes of a string.
pub record IsUtf8 (o : Bytes) : Type 0 where
  pub str : Str
  pub chars : All IsChar str
  pub encoded : o ≡ bytes str

pub nil-IsUtf8 : IsUtf8 []
unfolding bytes
nil-IsUtf8 = record { str = []; chars = tt; encoded = refl }

pub append-IsUtf8 : (o t : Bytes) → IsUtf8 o → IsUtf8 t → IsUtf8 (o ++ t)
unfolding bytes
append-IsUtf8 o t h k = record {
  str = h.str ++ k.str;
  chars = All-append IsChar h.str k.str h.chars k.chars;
  encoded = rw (h.encoded, k.encoded, flat_map-append) refl;
}

pub bytes-IsUtf8 : (s : Str) → All IsChar s → IsUtf8 (bytes s)
bytes-IsUtf8 s h = record { str = s; chars = h; encoded = refl }

-- A byte of ASCII is a character of its own.
abbrev pub IsAscii : ℕ → Type 0
IsAscii c = c < 0x80

pub ascii-IsUtf8 : (s : Bytes) → All IsAscii s → IsUtf8 s
unfolding bytes
ascii-IsUtf8 [] h = nil-IsUtf8
ascii-IsUtf8 (c ∷ s) (h, hs) =
    append-IsUtf8 (c ∷ []) s
      (record { str = c ∷ []; chars = (inl (omega arith), tt); encoded = ground arith })
      (ascii-IsUtf8 s hs)

-- A byte of ASCII in front of a string, or behind it.
pub cons-IsUtf8 : (c : ℕ) (s : Bytes) → IsAscii c → IsUtf8 s → IsUtf8 (c ∷ s)
cons-IsUtf8 c s h k = append-IsUtf8 (c ∷ []) s (ascii-IsUtf8 (c ∷ []) (h, tt)) k

pub snoc-IsUtf8 : (s : Bytes) (c : ℕ) → IsUtf8 s → IsAscii c → IsUtf8 (s ++ c ∷ [])
snoc-IsUtf8 s c k h = append-IsUtf8 s (c ∷ []) k (ascii-IsUtf8 (c ∷ []) (h, tt))

module _ (check : ℕ → Bool) (ascii : (b : ℕ) → 0x80 ≤ b → check b ≡ false) where
  -- Bytes that are no ASCII are not escaped.
  escape-wide : (s : Bytes) → All (λ b. 0x80 ≤ b) s → escape check s ≡ s
  unfolding escape
  escape-wide [] h = refl
  escape-wide (b ∷ s) (h, hs) = rw (ascii b h, escape-wide s hs) refl

  escape-append : (s t : Bytes) → escape check (s ++ t) ≡ escape check s ++ escape check t
  unfolding escape
  escape-append s t = flat_map-append (escape_byte check) s t

  encode-wide : (c : ℕ) → 0x80 ≤ c → All (λ b. 0x80 ≤ b) (encode_char c)
  encode-wide c h = ground arith

  escape-narrow : (c : ℕ) → c < 0x80 → IsUtf8 (escape check (encode_char c))
  unfolding escape
  escape-narrow c h =
      let one : encode_char c ≡ c ∷ [] = ground arith in
      rw one (
        ascii-IsUtf8 (escape_byte check c ++ []) (
          rw (append-nil (escape_byte check c)) (elim (Bool-cases (check c)) [
            | inl is ↦ rw is (omega arith, (h, tt))
            | inr is ↦ rw is (h, tt)
          ])))

  escape_char-IsUtf8 : (c : ℕ) → IsChar c → IsUtf8 (escape check (encode_char c))
  unfolding bytes
  escape_char-IsUtf8 c h = elim (Bool-cases (ltb c 0x80)) [
    | inl is ↦ escape-narrow c (ground arith)
    | inr is ↦
        rw (escape-wide (encode_char c) (encode-wide c (ground arith)))
          (record { str = c ∷ []; chars = (h, tt); encoded = sym (append-nil (encode_char c)) })
  ]

  -- Escaping the bytes of a string gives those of a string.
  pub escape-IsUtf8 : (s : Str) → All IsChar s → IsUtf8 (escape check (bytes s))
  unfolding bytes
  escape-IsUtf8 [] h = unfold escape in nil-IsUtf8
  escape-IsUtf8 (c ∷ s) (h, hs) = rw (escape-append (encode_char c) (bytes s)) (
      append-IsUtf8 (escape check (encode_char c)) (escape check (bytes s)) (escape_char-IsUtf8 c h)
        (escape-IsUtf8 s hs))

pub unquoted-ascii : (b : ℕ) → 0x80 ≤ b → must_escape_unquoted b ≡ false
unfolding must_escape_unquoted
unquoted-ascii b h = ground arith

pub quoted-ascii : (b : ℕ) → 0x80 ≤ b → must_escape_quoted b ≡ false
unfolding must_escape_quoted
quoted-ascii b h = ground arith
