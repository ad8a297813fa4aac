-- ===== src/Buffer/Utf8/Output.antt =====
-- The text of each call, and so the output of every buffer that the API can produce, is UTF-8.
use c_questdb_client.Base.{
  ℕ, ◌≡◌, Bool, true, [], ◌∷◌, ◌++◌, All, arith, inl, inr, Bool-cases, if◌then◌else◌,
}
use c_questdb_client.Op.{Op, OpCase}
use c_questdb_client.Error.{Result, ok, err}
use c_questdb_client.Text.{Str, Bytes, bytes}
use c_questdb_client.Text.Utf8.{IsChar}
use c_questdb_client.Number.{
  is_finite, format_nonfinite, Formatters, format_f64, is_decimal_byte, is_float_byte, is_hex_byte,
}
use c_questdb_client.Name.TableName.{TableName}
use c_questdb_client.Name.ColumnName.{ColumnName}
use c_questdb_client.Timestamp.{TimestampMicros, TimestampNanos}
use c_questdb_client.Escape.{must_escape_unquoted, must_escape_quoted}
use c_questdb_client.Buffer.{Buffer, permits}
use c_questdb_client.Buffer.Calls.{
  symbol_text, table_name_text, micros_text, nanos_text, Call, table_call, symbol_call, bool_call,
  i64_call, f64_call, str_call, ts_call, long256_call, at_call, at_now_call, unquoted, key_text,
  text, micros_of, nanos_of,
}
use c_questdb_client.Buffer.Rows.Invariant.{
  Reach, started, called, marked, rewound, unmarked, cleared,
}
use c_questdb_client.Buffer.Utf8.{
  cons-IsUtf8, snoc-IsUtf8, IsUtf8, nil-IsUtf8, append-IsUtf8, ascii-IsUtf8, IsAscii, escape-IsUtf8,
  unquoted-ascii, quoted-ascii, escape,
}

-- A name that was given is a string.
abbrev pub IsTable : Result TableName → Type 0
IsTable (ok n) = All IsChar n.name
IsTable (err e) = Unit

abbrev pub IsColumn : Result ColumnName → Type 0
IsColumn (ok n) = All IsChar n.name
IsColumn (err e) = Unit

-- The arguments of a call that are of type `str` in the source are strings.
abbrev pub IsTyped : Call → Type 0
IsTyped (table_call name) = IsTable name
IsTyped (symbol_call name value) = IsColumn name × All IsChar value
IsTyped (bool_call name value) = IsColumn name
IsTyped (i64_call name value) = IsColumn name
IsTyped (f64_call name value) = IsColumn name
IsTyped (str_call name value) = IsColumn name × All IsChar value
IsTyped (ts_call name value) = IsColumn name
IsTyped (long256_call name value) = IsColumn name
IsTyped (at_call timestamp) = Unit
IsTyped at_now_call = Unit

-- Every call on the way to a buffer is such a call.
abbrev pub AreTyped : {x : Formatters} {b : Buffer} → Reach x b → Type 0
AreTyped (started limit) = Unit
AreTyped (called r c) = AreTyped r × IsTyped c
AreTyped (marked r) = AreTyped r
AreTyped (rewound r) = AreTyped r
AreTyped (unmarked r) = AreTyped r
AreTyped (cleared r) = AreTyped r

all-IsAscii :
    (p : ℕ → Bool)
    → ((c : ℕ) → p c ≡ true → IsAscii c)
    → (s : Bytes) → All (λ c. p c ≡ true) s
    → All IsAscii s
all-IsAscii p f [] h = tt
all-IsAscii p f (c ∷ s) (h, hs) = (f c h, all-IsAscii p f s hs)

module _ (x : Formatters) where
  itoa-IsUtf8 : (v : _) → IsUtf8 (x.itoa v)
  itoa-IsUtf8 v =
      ascii-IsUtf8 (x.itoa v)
        (all-IsAscii is_decimal_byte (λ c h. ground arith) (x.itoa v) (x.itoa_bytes v))

  hex-IsUtf8 : (s : Bytes) → IsUtf8 (x.hex s)
  hex-IsUtf8 s =
      ascii-IsUtf8 (x.hex s)
        (all-IsAscii is_hex_byte (λ c h. ground arith) (x.hex s) (x.hex_bytes s))

  ryu-IsUtf8 : (v : ℕ) → IsUtf8 (x.ryu v)
  ryu-IsUtf8 v =
      ascii-IsUtf8 (x.ryu v)
        (all-IsAscii is_float_byte (λ c h. ground arith) (x.ryu v) (x.ryu_bytes v))

  nonfinite-IsAscii : (v : ℕ) → All IsAscii (format_nonfinite v)
  unfolding format_nonfinite
  nonfinite-IsAscii v = ground arith

  format_f64-IsUtf8 : (v : ℕ) → IsUtf8 (format_f64 x v)
  unfolding format_f64
  format_f64-IsUtf8 v = elim (Bool-cases (is_finite v)) [
    | inl is ↦ rw (format_f64, is) (ryu-IsUtf8 v)
    | inr is ↦ rw (format_f64, is) (ascii-IsUtf8 (format_nonfinite v) (nonfinite-IsAscii v))
  ]

  unquoted-IsUtf8 : (s : Str) → All IsChar s → IsUtf8 (unquoted s)
  unfolding unquoted
  unquoted-IsUtf8 s h = escape-IsUtf8 must_escape_unquoted unquoted-ascii s h

  key-IsUtf8 : (o : OpCase) (n : Result ColumnName) → IsColumn n → IsUtf8 (key_text o n)
  unfolding key_text
  key-IsUtf8 o (err e) h = nil-IsUtf8
  key-IsUtf8 o (ok n) h =
      cons-IsUtf8 (if permits o Op.symbol then b' ' else b',') (unquoted n.name ++ b'=' ∷ [])
        (ground arith) (snoc-IsUtf8 (unquoted n.name) b'=' (unquoted-IsUtf8 n.name h) (omega arith))

  symbol-IsUtf8 :
      (n : Result ColumnName) (v : Str) → IsColumn n → All IsChar v → IsUtf8 (symbol_text n v)
  unfolding symbol_text
  symbol-IsUtf8 (err e) v h k = nil-IsUtf8
  symbol-IsUtf8 (ok n) v h k =
      cons-IsUtf8 b',' (unquoted n.name ++ b'=' ∷ unquoted v) (omega arith) (
        append-IsUtf8 (unquoted n.name) (b'=' ∷ unquoted v) (unquoted-IsUtf8 n.name h)
          (cons-IsUtf8 b'=' (unquoted v) (omega arith) (unquoted-IsUtf8 v k)))

  table-IsUtf8 : (n : Result TableName) → IsTable n → IsUtf8 (table_name_text n)
  unfolding table_name_text
  table-IsUtf8 (err e) h = nil-IsUtf8
  table-IsUtf8 (ok n) h = unquoted-IsUtf8 n.name h

  micros-IsUtf8 : (r : Result TimestampMicros) → IsUtf8 (micros_text x r)
  unfolding micros_text
  micros-IsUtf8 (err e) = nil-IsUtf8
  micros-IsUtf8 (ok t) = snoc-IsUtf8 (x.itoa t.as_i64) b't' (itoa-IsUtf8 t.as_i64) (omega arith)

  nanos-IsUtf8 : (r : Result TimestampNanos) → IsUtf8 (nanos_text x r)
  unfolding nanos_text
  nanos-IsUtf8 (err e) = nil-IsUtf8
  nanos-IsUtf8 (ok t) =
      cons-IsUtf8 b' ' (x.itoa t.as_i64 ++ 0x0a ∷ []) (omega arith)
        (snoc-IsUtf8 (x.itoa t.as_i64) 0x0a (itoa-IsUtf8 t.as_i64) (omega arith))

  quoted-IsUtf8 :
      (v : Str) → All IsChar v → IsUtf8 (0x22 ∷ (escape must_escape_quoted (bytes v) ++ 0x22 ∷ []))
  quoted-IsUtf8 v h =
      let inside = escape must_escape_quoted (bytes v) in
      cons-IsUtf8 0x22 (inside ++ 0x22 ∷ []) (omega arith)
        (snoc-IsUtf8 inside 0x22 (escape-IsUtf8 must_escape_quoted quoted-ascii v h) (omega arith))

  -- The text of a column: its key, and a value.
  keyed-IsUtf8 :
      (o : OpCase) (n : Result ColumnName) (v : Bytes)
      → IsColumn n
      → IsUtf8 v
      → IsUtf8 (key_text o n ++ v)
  keyed-IsUtf8 o n v h k = append-IsUtf8 (key_text o n) v (key-IsUtf8 o n h) k

  pub text-IsUtf8 : (o : OpCase) (c : Call) → IsTyped c → IsUtf8 (text x o c)
  unfolding text
  text-IsUtf8 o (table_call name) h = table-IsUtf8 name h
  text-IsUtf8 o (symbol_call name value) h = symbol-IsUtf8 name value h.0 h.1
  text-IsUtf8 o (bool_call name value) h =
      keyed-IsUtf8 o name ((if value then b't' else b'f') ∷ []) h (ascii-IsUtf8 _ (ground arith))
  text-IsUtf8 o (i64_call name value) h =
      keyed-IsUtf8 o name (x.itoa value ++ b'i' ∷ []) h
        (snoc-IsUtf8 (x.itoa value) b'i' (itoa-IsUtf8 value) (omega arith))
  text-IsUtf8 o (f64_call name value) h =
      keyed-IsUtf8 o name (format_f64 x value) h (format_f64-IsUtf8 value)
  text-IsUtf8 o (str_call name value) h = keyed-IsUtf8 o name _ h.0 (quoted-IsUtf8 value h.1)
  text-IsUtf8 o (ts_call name value) h =
      keyed-IsUtf8 o name (micros_text x (micros_of value)) h (micros-IsUtf8 (micros_of value))
  text-IsUtf8 o (long256_call name value) h =
      keyed-IsUtf8 o name (b'0' ∷ b'x' ∷ (x.hex value ++ b'i' ∷ [])) h (
        cons-IsUtf8 b'0' _ (omega arith) (
          cons-IsUtf8 b'x' (x.hex value ++ b'i' ∷ []) (omega arith)
            (snoc-IsUtf8 (x.hex value) b'i' (hex-IsUtf8 value) (omega arith))))
  text-IsUtf8 o (at_call timestamp) h = nanos-IsUtf8 (nanos_of timestamp)
  text-IsUtf8 o at_now_call h = ascii-IsUtf8 (0x0a ∷ []) (omega arith)
