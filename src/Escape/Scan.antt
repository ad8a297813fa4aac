-- ===== src/Escape/Scan.antt =====
-- A reader of escaped text: a backslash takes the next byte as it is, and the text ends in front of
-- a stop byte.
use c_questdb_client.Base.{
  ℕ, ◌≡◌, Bool, true, ◌||◌, [], ◌∷◌, ◌++◌, ◌==◌, if◌then◌else◌, arith, refl, append_assoc,
}
use c_questdb_client.Text.{Bytes}
use c_questdb_client.Escape.{backslash, must_escape_unquoted, must_escape_quoted}
use c_questdb_client.Escape.InPlace.{escape, escape_byte}

-- The text read, and the rest from the stop byte on.
unfoldable pub read_escaped : (ℕ → Bool) → Bytes → Bytes × Bytes
read_escaped stop [] = ([], [])
read_escaped stop (b ∷ []) = if stop b then ([], b ∷ []) else (b ∷ [], [])
read_escaped stop (b ∷ c ∷ s) =
    let (skipped, skipped_rest) = read_escaped stop s in
    let (text, rest) = read_escaped stop (c ∷ s) in
    if b == backslash
    then (c ∷ skipped, skipped_rest)
    else if stop b
    then ([], b ∷ c ∷ s)
    else (b ∷ text, rest)

-- The bytes that end a name or a value in a line.
abbrev pub ends_unquoted : ℕ → Bool
ends_unquoted c = c == b' ' || c == b',' || c == b'=' || c == 0x0a || c == 0x0d

-- The byte that ends a string, and those that end a line.
abbrev pub ends_quoted : ℕ → Bool
ends_quoted c = c == 0x22 || c == 0x0a || c == 0x0d

module _ (check stop : ℕ → Bool) (covers : (c : ℕ) → stop c ≡ true → check c ≡ true)
    (hides : check backslash ≡ true) where
  read-escape_byte :
      (b : ℕ) (rest : Bytes)
      → read_escaped stop (escape_byte check b ++ rest)
        ≡ (b ∷ (read_escaped stop rest).0, (read_escaped stop rest).1)
  unfolding read_escaped
  read-escape_byte b [] = ground (arith, covers b)
  read-escape_byte b (d ∷ rest) = ground (arith, covers b)

  read-escape :
      (s rest : Bytes)
      → read_escaped stop rest ≡ ([], rest)
      → read_escaped stop (escape check s ++ rest) ≡ (s, rest)
  unfolding escape
  read-escape [] rest h = h
  read-escape (b ∷ s) rest h =
      rw (append_assoc, read-escape_byte b (escape check s ++ rest), read-escape s rest h) refl

-- A name or a value that is written unquoted is read back as it was, whatever bytes it holds, up to
-- the byte behind it that ends it.
pub read-unquoted :
    (s rest : Bytes) (d : ℕ)
    → ends_unquoted d ≡ true
    → read_escaped ends_unquoted (escape must_escape_unquoted s ++ d ∷ rest) ≡ (s, d ∷ rest)
unfolding read_escaped must_escape_unquoted
read-unquoted s rest d h =
    read-escape must_escape_unquoted ends_unquoted (λ c e. ground arith) refl s (d ∷ rest)
      (stops rest)
  where
    stops : (rest : Bytes) → read_escaped ends_unquoted (d ∷ rest) ≡ ([], d ∷ rest)
    stops [] = ground arith
    stops (c ∷ rest) = ground arith

-- A string is read back as it was between its quotes, whatever bytes it holds.
pub read-quoted :
    (s rest : Bytes)
    → read_escaped ends_quoted (escape must_escape_quoted s ++ 0x22 ∷ rest) ≡ (s, 0x22 ∷ rest)
unfolding read_escaped must_escape_quoted
read-quoted s rest =
    read-escape must_escape_quoted ends_quoted (λ c e. ground arith) refl s (0x22 ∷ rest)
      (stops rest)
  where
    stops : (rest : Bytes) → read_escaped ends_quoted (0x22 ∷ rest) ≡ ([], 0x22 ∷ rest)
    stops [] = refl
    stops (c ∷ rest) = refl
