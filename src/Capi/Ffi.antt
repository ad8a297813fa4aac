-- ===== src/Capi/Ffi.antt =====
-- questdb-rs-ffi/src/lib.rs: the C functions over the Rust library. `err_out` gets a new error when
-- a call fails.
pub mod Opts
pub mod Library
pub mod Views
use c_questdb_client.Base.{ℕ, Bool, none, some, take, length, ◌==◌, if◌then◌else◌, [], Option}
use c_questdb_client.Base.Int.{ℤ}
use c_questdb_client.Error.{Error, error, ErrorCode, Message, bad_utf8, Result, ok, err}
use c_questdb_client.Text.{Str, Bytes}
use c_questdb_client.Text.Utf8.{from_utf8}
use c_questdb_client.Name.TableName
use c_questdb_client.Name.TableName.{TableName}
use c_questdb_client.Name.ColumnName
use c_questdb_client.Name.ColumnName.{ColumnName}
use c_questdb_client.Timestamp.{micros, nanos}
use c_questdb_client.Number.{Formatters}
use c_questdb_client.Buffer
use c_questdb_client.Buffer.{Buffer, M}
use c_questdb_client.Capi.Codes.{
  LineSenderErrorCode, of_error_code, header_error_code, ffi_error_number,
}
use c_questdb_client.Capi.Memory.{
  Ptr, null, Cmd, pure, ◌>>=◌, ◌>>◌, aborted, Outcome, done, failed, alloc_buffer, alloc_error,
  load_buffer, store_buffer, load_error, store_error, fault, found,
}
use c_questdb_client.Capi.Header.{LineSenderUtf8, LineSenderTableName, LineSenderColumnName}

-- `bubble_err_to_c!`: the value, or the boxed error.
abbrev pub bubble : {A : Type 0} → Result A → Cmd (Outcome A)
bubble (ok a) = pure (done a)
bubble (err e) = do q ← alloc_error e; pure (failed q)

-- A method of the buffer behind a pointer.
abbrev pub on_buffer : Ptr → M (Unit {0}) → Cmd (Outcome (Unit {0}))
on_buffer p f = do b ← load_buffer p; store_buffer p (some (f b).1); bubble (f b).0

module _ where
  -- What C sees is the constant of the header with the number of that of `repr(C)`.
  unfoldable pub error_get_code : Ptr → Cmd LineSenderErrorCode
  unfolding of_error_code header_error_code ffi_error_number
  error_get_code p = do
    e ← load_error p
    found (header_error_code (ffi_error_number (of_error_code e.code)))

  unfoldable pub error_msg : Ptr → Cmd Message
  error_msg p = do e ← load_error p; pure e.msg

  unfoldable pub error_free : Ptr → Cmd (Unit {0})
  error_free p = if p == null then pure tt else do load_error p; store_error p none

-- `slice::from_raw_parts`
abbrev raw_parts : (len : ℕ) → Bytes → Bytes
raw_parts len buf = take len buf

abbrev pub utf8_error : Bytes → Error
utf8_error buf = error ErrorCode.invalid_utf8 (bad_utf8 buf)

unwrap_utf8_or_str : Bytes → Result Str
unwrap_utf8_or_str buf = elim (from_utf8 buf) [ some s ↦ ok s | none ↦ err (utf8_error buf) ]

then_view : {A B : Type 0} → Result A → B → Result B
then_view (ok a) v = ok v
then_view (err e) v = err e

checked_table_name : Result Str → Result TableName
checked_table_name (ok s) = TableName.new s
checked_table_name (err e) = err e

checked_column_name : Result Str → Result ColumnName
checked_column_name (ok s) = ColumnName.new s
checked_column_name (err e) = err e

abbrev or_abort : {A : Type 0} → Result A → Cmd A
or_abort (ok a) m = pure a m
or_abort (err e) m = aborted

module _ (len : ℕ) (buf : Bytes) where
  unfoldable pub utf8_init : Cmd (Outcome LineSenderUtf8)
  unfolding unwrap_utf8_or_str then_view
  utf8_init =
      bubble (then_view (unwrap_utf8_or_str (raw_parts len buf)) (record { len = len; buf = buf }))

  unfoldable pub utf8_assert : Cmd LineSenderUtf8
  unfolding unwrap_utf8_or_str then_view
  utf8_assert =
      or_abort
        (then_view (unwrap_utf8_or_str (raw_parts len buf)) (record { len = len; buf = buf }))

  unfoldable pub table_name_init : Cmd (Outcome LineSenderTableName)
  unfolding unwrap_utf8_or_str then_view checked_table_name
  table_name_init = bubble (
      then_view (checked_table_name (unwrap_utf8_or_str (raw_parts len buf)))
        (record { len = len; buf = buf }))

  unfoldable pub table_name_assert : Cmd LineSenderTableName
  unfolding unwrap_utf8_or_str then_view checked_table_name
  table_name_assert = or_abort (
      then_view (checked_table_name (unwrap_utf8_or_str (raw_parts len buf)))
        (record { len = len; buf = buf }))

  unfoldable pub column_name_init : Cmd (Outcome LineSenderColumnName)
  unfolding unwrap_utf8_or_str then_view checked_column_name
  column_name_init = bubble (
      then_view (checked_column_name (unwrap_utf8_or_str (raw_parts len buf)))
        (record { len = len; buf = buf }))

  unfoldable pub column_name_assert : Cmd LineSenderColumnName
  unfolding unwrap_utf8_or_str then_view checked_column_name
  column_name_assert = or_abort (
      then_view (checked_column_name (unwrap_utf8_or_str (raw_parts len buf)))
        (record { len = len; buf = buf }))

-- `from_utf8_unchecked`: bytes that are not UTF-8 are undefined behaviour there; here they make the
-- empty string. The views above hold UTF-8 only.
unfoldable pub str_unchecked : Bytes → Str
str_unchecked buf = elim (from_utf8 buf) [ some s ↦ s | none ↦ [] ]

-- `as_str` and the two `as_name`
abbrev pub as_str : LineSenderUtf8 → Str
as_str s = str_unchecked (raw_parts s.len s.buf)

abbrev pub as_table_name : LineSenderTableName → Result TableName
as_table_name s = ok (TableName.new_unchecked (str_unchecked (raw_parts s.len s.buf)))

abbrev pub as_column_name : LineSenderColumnName → Result ColumnName
as_column_name s = ok (ColumnName.new_unchecked (str_unchecked (raw_parts s.len s.buf)))

unfoldable pub buffer_new : Cmd Ptr
buffer_new = alloc_buffer Buffer.new

unfoldable pub buffer_with_max_name_len : ℕ → Cmd Ptr
buffer_with_max_name_len n = alloc_buffer (Buffer.with_max_name_len n)

unfoldable pub buffer_free : Ptr → Cmd (Unit {0})
buffer_free p = if p == null then pure tt else do load_buffer p; store_buffer p none

unfoldable pub buffer_clone : Ptr → Cmd Ptr
buffer_clone p = do b ← load_buffer p; alloc_buffer b

-- The capacity of the string is the allocator's, and not part of the model.
unfoldable pub buffer_reserve : Ptr → ℕ → Cmd (Unit {0})
buffer_reserve p additional = do b ← load_buffer p; pure tt

unfoldable pub buffer_set_marker : Ptr → Cmd (Outcome (Unit {0}))
buffer_set_marker p = on_buffer p Buffer.set_marker

unfoldable pub buffer_rewind_to_marker : Ptr → Cmd (Outcome (Unit {0}))
buffer_rewind_to_marker p = on_buffer p Buffer.rewind_to_marker

unfoldable pub buffer_clear_marker : Ptr → Cmd (Unit {0})
buffer_clear_marker p = do b ← load_buffer p; store_buffer p (some (Buffer.clear_marker b))

unfoldable pub buffer_clear : Ptr → Cmd (Unit {0})
buffer_clear p = do b ← load_buffer p; store_buffer p (some (Buffer.clear b))

unfoldable pub buffer_size : Ptr → Cmd ℕ
buffer_size p = do b ← load_buffer p; pure (length b.output)

unfoldable pub buffer_row_count : Ptr → Cmd ℕ
buffer_row_count p = do b ← load_buffer p; pure b.state.row_count

unfoldable pub buffer_transactional : Ptr → Cmd Bool
buffer_transactional p = do b ← load_buffer p; pure b.state.transactional

unfoldable pub buffer_peek : Ptr → Cmd Bytes
buffer_peek p = do b ← load_buffer p; pure b.output

unfoldable pub buffer_table : Ptr → LineSenderTableName → Cmd (Outcome (Unit {0}))
buffer_table p name = on_buffer p (Buffer.table (as_table_name name))

unfoldable pub buffer_symbol :
    Ptr → LineSenderColumnName → LineSenderUtf8 → Cmd (Outcome (Unit {0}))
buffer_symbol p name value = on_buffer p (Buffer.symbol (as_column_name name) (as_str value))

unfoldable pub buffer_column_bool : Ptr → LineSenderColumnName → Bool → Cmd (Outcome (Unit {0}))
buffer_column_bool p name value = on_buffer p (Buffer.column_bool (as_column_name name) value)

unfoldable pub buffer_column_str :
    Ptr → LineSenderColumnName → LineSenderUtf8 → Cmd (Outcome (Unit {0}))
buffer_column_str p name value =
    on_buffer p (Buffer.column_str (as_column_name name) (as_str value))

unfoldable pub buffer_at_now : Ptr → Cmd (Outcome (Unit {0}))
buffer_at_now p = on_buffer p Buffer.at_now

module _ (x : Formatters) where
  unfoldable pub buffer_column_i64 : Ptr → LineSenderColumnName → ℤ → Cmd (Outcome (Unit {0}))
  buffer_column_i64 p name value = on_buffer p (Buffer.column_i64 x (as_column_name name) value)

  unfoldable pub buffer_column_f64 : Ptr → LineSenderColumnName → ℕ → Cmd (Outcome (Unit {0}))
  buffer_column_f64 p name value = on_buffer p (Buffer.column_f64 x (as_column_name name) value)

  unfoldable pub buffer_column_ts_nanos : Ptr → LineSenderColumnName → ℤ → Cmd (Outcome (Unit {0}))
  buffer_column_ts_nanos p name value =
      on_buffer p
        (Buffer.column_ts x (as_column_name name) (ok (nanos (record { as_i64 = value }))))

  unfoldable pub buffer_column_ts_micros : Ptr → LineSenderColumnName → ℤ → Cmd (Outcome (Unit {0}))
  buffer_column_ts_micros p name value =
      on_buffer p
        (Buffer.column_ts x (as_column_name name) (ok (micros (record { as_i64 = value }))))

  unfoldable pub buffer_at_nanos : Ptr → ℤ → Cmd (Outcome (Unit {0}))
  buffer_at_nanos p value = on_buffer p (Buffer.at x (ok (nanos (record { as_i64 = value }))))

  unfoldable pub buffer_at_micros : Ptr → ℤ → Cmd (Outcome (Unit {0}))
  buffer_at_micros p value = on_buffer p (Buffer.at x (ok (micros (record { as_i64 = value }))))
