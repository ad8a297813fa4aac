-- ===== src/Buffer/Rows/Appended.antt =====
-- The lines in the text that a call appends: one for a call that ends a row, none for another.
use c_questdb_client.Base.{ℕ, ◌+◌, ◌≡◌, refl, true, false, none, arith, inl, inr, Bool-cases}
use c_questdb_client.Op.{Op, OpCase}
use c_questdb_client.Error.{Result, ok, err}
use c_questdb_client.Text.{Str, Bytes, bytes}
use native.Mathlib.Nat.{add-zero}
use c_questdb_client.Name.TableName.{TableName}
use c_questdb_client.Name.ColumnName.{ColumnName}
use c_questdb_client.Escape.{must_escape_quoted, must_escape_unquoted}
use c_questdb_client.Escape.InPlace.{escape}
use c_questdb_client.Timestamp.{TimestampNanos, TimestampMicros}
use c_questdb_client.Number.{Formatters}
use c_questdb_client.Buffer.{Buffer, permits}
use c_questdb_client.Buffer.Calls.{
  Call, table_call, symbol_call, bool_call, i64_call, f64_call, str_call, ts_call, long256_call,
  at_call, at_now_call, op_of, refusal, text, key_text, symbol_text, table_name_text, micros_text,
  nanos_text, nanos_refusal, unquoted, nanos_of,
}
use c_questdb_client.Buffer.Rows.{
  read_lines, read_lines-append, read_lines-escape, read_itoa, read_hex, read_format_f64,
}

-- The lines that a call ends.
abbrev pub rows : Op → ℕ
rows Op.at = 1
rows _ = 0

module _ (n : ℕ) where
  read_unquoted : (s : Bytes) → read_lines (false, n) (escape must_escape_unquoted s) ≡ (false, n)
  unfolding must_escape_unquoted
  read_unquoted = λ s. read_lines-escape must_escape_unquoted refl refl s n

  read_quoted : (s : Bytes) → read_lines (false, n) (escape must_escape_quoted s) ≡ (false, n)
  unfolding must_escape_quoted
  read_quoted = λ s. read_lines-escape must_escape_quoted refl refl s n

  read_key :
      (c : OpCase) (name : Result ColumnName) → read_lines (false, n) (key_text c name) ≡ (false, n)
  unfolding key_text unquoted read_lines
  read_key c (ok name) = elim (Bool-cases (permits c Op.symbol)) [
    | inl first ↦ rw first (simp (read_lines-append, read_unquoted))
    | inr later ↦ rw later (simp (read_lines-append, read_unquoted))
  ]
  read_key c (err e) = refl

  read_symbol :
      (name : Result ColumnName) (v : Str) → read_lines (false, n) (symbol_text name v) ≡ (false, n)
  unfolding symbol_text unquoted read_lines
  read_symbol (ok name) v = simp (read_lines-append, read_unquoted)
  read_symbol (err e) v = refl

  read_table : (name : Result TableName) → read_lines (false, n) (table_name_text name) ≡ (false, n)
  unfolding table_name_text unquoted read_lines
  read_table (ok name) = read_unquoted (bytes name.name)
  read_table (err e) = refl

module _ (x : Formatters) (n : ℕ) where
  read_micros : (t : Result TimestampMicros) → read_lines (false, n) (micros_text x t) ≡ (false, n)
  unfolding micros_text read_lines
  read_micros (ok t) = simp (read_lines-append, read_itoa)
  read_micros (err e) = refl

  read_nanos :
      (r : Result TimestampNanos)
      → nanos_refusal r ≡ none
      → read_lines (false, n) (nanos_text x r) ≡ (false, n + 1)
  unfolding nanos_text nanos_refusal read_lines
  read_nanos (ok t) h = simp (read_lines-append, read_itoa)
  read_nanos (err e) h = cc

  pub read-text :
      (c : Call) (b : Buffer)
      → refusal c b ≡ none
      → read_lines (false, n) (text x b.state.op_case c) ≡ (false, n + rows (op_of c))
  unfolding text op_of read_lines refusal
  read-text (table_call name) b h = simp (read_table, add-zero)
  read-text (symbol_call name v) b h = simp (read_symbol, add-zero)
  read-text (bool_call name true) b h = simp (read_lines-append, read_key, add-zero)
  read-text (bool_call name false) b h = simp (read_lines-append, read_key, add-zero)
  read-text (i64_call name v) b h = simp (read_lines-append, read_key, read_itoa, add-zero)
  read-text (f64_call name v) b h = simp (read_lines-append, read_key, read_format_f64, add-zero)
  read-text (str_call name v) b h = simp (read_lines-append, read_key, read_quoted, add-zero)
  read-text (ts_call name v) b h = simp (read_lines-append, read_key, read_micros, add-zero)
  read-text (long256_call name v) b h = simp (read_lines-append, read_key, read_hex, add-zero)
  read-text (at_call t) b h = read_nanos (nanos_of t) (ground arith)
  read-text at_now_call b h = refl
