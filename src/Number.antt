-- ===== src/Number.antt =====
-- Numbers in a line: `F64Serializer` of questdb-rs/src/ingress/mod.rs, and the formatting crates,
-- which are parameters. An `f64` is its 64 bits.
use c_questdb_client.Base.{
  ℕ, ◌/◌, ◌%◌, ◌^◌, ◌≡◌, Bool, true, not, ◌&&◌, ◌||◌, leb, ◌==◌, if◌then◌else◌, bit_and, codes, All,
}
use c_questdb_client.Base.Int.{ℤ}
use c_questdb_client.Text.{Bytes}

abbrev pub is_digit : ℕ → Bool
is_digit c = leb b'0' c && leb c b'9'

abbrev pub is_decimal_byte : ℕ → Bool
is_decimal_byte c = is_digit c || c == b'-'

abbrev pub is_float_byte : ℕ → Bool
is_float_byte c = is_digit c || c == b'-' || c == b'.' || c == b'e'

abbrev pub is_hex_byte : ℕ → Bool
is_hex_byte c = is_digit c || (leb b'a' c && leb c b'f')

-- The bytes that the crates write: `itoa` writes digits behind an optional minus sign, `ryu` a
-- decimal number with an optional exponent, and `hex` two digits for each byte.
pub record Formatters : Type 0 where
  pub itoa : ℤ → Bytes
  pub ryu : ℕ → Bytes
  pub hex : Bytes → Bytes
  pub itoa_bytes : (n : ℤ) → All (λ c. is_decimal_byte c ≡ true) (itoa n)
  pub ryu_bytes : (n : ℕ) → All (λ c. is_float_byte c ≡ true) (ryu n)
  pub hex_bytes : (s : Bytes) → All (λ c. is_hex_byte c ≡ true) (hex s)

abbrev mantissa_mask : ℕ
mantissa_mask = 0x000f_ffff_ffff_ffff

abbrev sign_mask : ℕ
sign_mask = 0x8000_0000_0000_0000

-- `f64::is_finite`: the exponent is not all ones.
unfoldable pub is_finite : ℕ → Bool
is_finite n = not (n / 2 ^ 52 % 2 ^ 11 == 2047)

unfoldable pub format_nonfinite : ℕ → Bytes
format_nonfinite n =
    if not (bit_and n mantissa_mask == 0)
    then codes "NaN"
    else if not (bit_and n sign_mask == 0)
    then codes "-Infinity"
    else codes "Infinity"

-- `F64Serializer::as_str`
unfoldable pub format_f64 : Formatters → ℕ → Bytes
unfolding is_finite format_nonfinite
format_f64 x n = if is_finite n then x.ryu n else format_nonfinite n
