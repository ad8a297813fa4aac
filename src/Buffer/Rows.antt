-- ===== src/Buffer/Rows.antt =====
-- The rows of a buffer: a reader that knows nothing of the calls finds as many lines as the buffer
-- counts. A backslash hides the byte behind it from the reader.
pub mod Appended
pub mod Invariant
use c_questdb_client.Base.{
  ℕ, ◌+◌, ◌≡◌, refl, ◌≢◌, Bool, true, false, not, ◌&&◌, ◌||◌, [], ◌∷◌, ◌++◌, ◌==◌, leb,
  if◌then◌else◌, All, arith, bit_and, codes, Bool-cases, inl, inr,
}
use c_questdb_client.Text.{Bytes}
use c_questdb_client.Escape.{backslash}
use c_questdb_client.Escape.InPlace.{escape, escape_byte}
use c_questdb_client.Number.{
  Formatters, format_f64, is_digit, is_decimal_byte, is_float_byte, is_hex_byte,
}

-- One byte: whether the byte before was a backslash, and the lines so far.
unfoldable pub read_byte : Bool × ℕ → ℕ → Bool × ℕ
read_byte (true, n) c = (false, n)
read_byte (false, n) c =
    if c == backslash then (true, n) else if c == 0x0a then (false, n + 1) else (false, n)

unfoldable pub read_lines : Bool × ℕ → Bytes → Bool × ℕ
unfolding read_byte
read_lines r [] = r
read_lines r (c ∷ s) = read_lines (read_byte r c) s

pub read_lines-append :
    (r : Bool × ℕ) (s t : Bytes) → read_lines r (s ++ t) ≡ read_lines (read_lines r s) t
unfolding read_lines
read_lines-append r [] t = refl
read_lines-append r (c ∷ s) t = read_lines-append (read_byte r c) s t

-- A byte that is neither a backslash nor the end of a line.
unfoldable pub is_inner : ℕ → Bool
is_inner c = not (c == backslash || c == 0x0a)

pub read_inner :
    (s : Bytes) (n : ℕ) → All (λ c. is_inner c ≡ true) s → read_lines (false, n) s ≡ (false, n)
unfolding read_lines is_inner
read_inner [] n h = refl
read_inner (c ∷ s) n (h, hs) =
    let one : read_byte (false, n) c ≡ (false, n) = ground arith in rw one (read_inner s n hs)

module _ (check : ℕ → Bool) (hides : check backslash ≡ true) (ends : check 0x0a ≡ true) where
  read-escape_byte : (b n : ℕ) → read_lines (false, n) (escape_byte check b) ≡ (false, n)
  unfolding read_lines
  read-escape_byte b n = ground arith

  -- Escaped text ends no line and leaves no backslash open.
  pub read_lines-escape : (s : Bytes) (n : ℕ) → read_lines (false, n) (escape check s) ≡ (false, n)
  unfolding escape
  read_lines-escape [] n = unfold read_lines in refl
  read_lines-escape (b ∷ s) n = rw (read_lines-append, read-escape_byte) (read_lines-escape s n)

All-mono :
    (p q : ℕ → Bool)
    → ((c : ℕ) → p c ≡ true → q c ≡ true)
    → (s : Bytes) → All (λ c. p c ≡ true) s
    → All (λ c. q c ≡ true) s
All-mono p q f [] h = tt
All-mono p q f (c ∷ s) (h, hs) = (f c h, All-mono p q f s hs)

module _ (x : Formatters) (n : ℕ) where
  pub read_itoa : (v : _) → read_lines (false, n) (x.itoa v) ≡ (false, n)
  unfolding is_inner
  read_itoa v =
      read_inner (x.itoa v) n
        (All-mono is_decimal_byte is_inner (λ c h. ground arith) (x.itoa v) (x.itoa_bytes v))

  pub read_hex : (s : Bytes) → read_lines (false, n) (x.hex s) ≡ (false, n)
  unfolding is_inner
  read_hex s =
      read_inner (x.hex s) n
        (All-mono is_hex_byte is_inner (λ c h. ground arith) (x.hex s) (x.hex_bytes s))

  read_ryu : (v : ℕ) → read_lines (false, n) (x.ryu v) ≡ (false, n)
  unfolding is_inner
  read_ryu v =
      read_inner (x.ryu v) n
        (All-mono is_float_byte is_inner (λ c h. ground arith) (x.ryu v) (x.ryu_bytes v))

  pub read_format_f64 : (v : ℕ) → read_lines (false, n) (format_f64 x v) ≡ (false, n)
  unfolding format_f64 read_lines
  read_format_f64 v = ground (arith, read_ryu v)
