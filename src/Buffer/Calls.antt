-- ===== src/Buffer/Calls.antt =====
-- The calls that build a row, as data, and what each of them does: its first refusal, or the text
-- that it appends and the state that it leaves.
pub mod Outcome
use c_questdb_client.Base.{
  ℕ, ◌+◌, ◌%◌, ◌^◌, ◌≡◌, refl, Bool, true, false, not, Option, none, some, [], ◌∷◌, ◌++◌, ltb,
  if◌then◌else◌, same_text, append_assoc, arith,
}
use c_questdb_client.Base.Int.{ℤ, is_negative}
use c_questdb_client.Op.{Op, OpCase}
use c_questdb_client.Error.{
  Result, ok, err, Error, error, invalid_api_call, invalid_name, invalid_timestamp, name_too_long,
  bad_call, negative_timestamp,
}
use c_questdb_client.Text.{Str, Bytes, len, bytes}
use c_questdb_client.Name.TableName.{TableName}
use c_questdb_client.Name.ColumnName.{ColumnName}
use c_questdb_client.Escape.{must_escape_unquoted, must_escape_quoted}
use c_questdb_client.Escape.InPlace.{
  escape, write_escaped_unquoted-escape, write_escaped_quoted-escape,
}
use c_questdb_client.Timestamp.{TimestampMicros, TimestampNanos, Timestamp, to_micros, to_nanos}
use c_questdb_client.Number.{Formatters, format_f64}
use c_questdb_client.Buffer.{
  Buffer, BufferState, M, permits, check_op, note_table, table, symbol, column_bool, column_i64,
  column_f64, column_str, column_ts, column_long256, at, at_now, write_column_key,
}

pub data Call : Type 0 where
  table_call : Result TableName → Call
  symbol_call : Result ColumnName → Str → Call
  bool_call : Result ColumnName → Bool → Call
  i64_call : Result ColumnName → ℤ → Call
  f64_call : Result ColumnName → ℕ → Call
  str_call : Result ColumnName → Str → Call
  ts_call : Result ColumnName → Result Timestamp → Call
  long256_call : Result ColumnName → Bytes → Call
  at_call : Result Timestamp → Call
  at_now_call : Call

module _ (x : Formatters) where
  unfoldable pub run : Call → M (Unit {0})
  unfolding table symbol column_bool column_i64 column_f64 column_str column_ts column_long256 at
      at_now
  run (table_call name) = table name
  run (symbol_call name value) = symbol name value
  run (bool_call name value) = column_bool name value
  run (i64_call name value) = column_i64 x name value
  run (f64_call name value) = column_f64 x name value
  run (str_call name value) = column_str name value
  run (ts_call name value) = column_ts x name value
  run (long256_call name value) = column_long256 x name value
  run (at_call timestamp) = at x timestamp
  run at_now_call = at_now

unfoldable pub op_of : Call → Op
op_of (table_call name) = Op.table
op_of (symbol_call name value) = Op.symbol
op_of (at_call timestamp) = Op.at
op_of at_now_call = Op.at
op_of _ = Op.column

-- The name that a call gives, and the error of one that is refused before the buffer sees it.
unfoldable pub table_text : Result TableName → Result Str
table_text (ok n) = ok n.name
table_text (err e) = err e

unfoldable pub column_text : Result ColumnName → Result Str
column_text (ok n) = ok n.name
column_text (err e) = err e

unfoldable pub name_of : Call → Option (Result Str)
unfolding table_text column_text
name_of (table_call name) = some (table_text name)
name_of (symbol_call name value) = some (column_text name)
name_of (bool_call name value) = some (column_text name)
name_of (i64_call name value) = some (column_text name)
name_of (f64_call name value) = some (column_text name)
name_of (str_call name value) = some (column_text name)
name_of (ts_call name value) = some (column_text name)
name_of (long256_call name value) = some (column_text name)
name_of (at_call timestamp) = none
name_of at_now_call = none

unfoldable pub name_refusal : ℕ → Option (Result Str) → Option Error
name_refusal max none = none
name_refusal max (some (err e)) = some e
name_refusal max (some (ok name)) =
    if ltb max (len name) then some (error invalid_name (name_too_long name max)) else none

-- The value of a timestamp, where the caller's conversion to one does not fail.
unfoldable pub nanos_of : Result Timestamp → Result TimestampNanos
nanos_of (ok t) = to_nanos t
nanos_of (err e) = err e

unfoldable pub micros_of : Result Timestamp → Result TimestampMicros
micros_of (ok t) = to_micros t
micros_of (err e) = err e

unfoldable pub nanos_refusal : Result TimestampNanos → Option Error
nanos_refusal (err e) = some e
nanos_refusal (ok t) =
    if is_negative t.as_i64
    then some (error invalid_timestamp (negative_timestamp t.as_i64))
    else none

unfoldable pub time_refusal : Call → Option Error
unfolding nanos_refusal nanos_of
time_refusal (at_call timestamp) = nanos_refusal (nanos_of timestamp)
time_refusal _ = none

unfoldable pub first_refusal : Option Error → Option Error → Option Error
first_refusal (some e) r = some e
first_refusal none r = r

-- Why a call is refused: first for its name, then for its order, then for its time.
unfoldable pub refusal : Call → Buffer → Option Error
unfolding name_refusal time_refusal first_refusal
refusal c b = first_refusal (name_refusal b.max_name_len (name_of c)) (
    if permits b.state.op_case (op_of c)
    then time_refusal c
    else some (error invalid_api_call (bad_call (op_of c) b.state.op_case)))

unfoldable pub micros_refusal : Result TimestampMicros → Option Error
micros_refusal (ok t) = none
micros_refusal (err e) = some e

-- Why a call stops behind the key that it has written: its value has no microseconds.
unfoldable pub value_refusal : Call → Option Error
unfolding micros_refusal micros_of
value_refusal (ts_call name value) = micros_refusal (micros_of value)
value_refusal _ = none

unfoldable pub unquoted : Str → Bytes
unquoted s = escape must_escape_unquoted (bytes s)

-- The key of a column: a space in front of the first column, a comma in front of the others.
unfoldable pub key_text : OpCase → Result ColumnName → Bytes
unfolding unquoted
key_text c (ok n) = (if permits c Op.symbol then b' ' else b',') ∷ (unquoted n.name ++ b'=' ∷ [])
key_text c (err e) = []

unfoldable pub nanos_text : Formatters → Result TimestampNanos → Bytes
nanos_text x (ok t) = b' ' ∷ (x.itoa t.as_i64 ++ 0x0a ∷ [])
nanos_text x (err e) = []

unfoldable pub symbol_text : Result ColumnName → Str → Bytes
unfolding unquoted
symbol_text (ok n) value = b',' ∷ (unquoted n.name ++ b'=' ∷ unquoted value)
symbol_text (err e) value = []

unfoldable pub table_name_text : Result TableName → Bytes
unfolding unquoted
table_name_text (ok n) = unquoted n.name
table_name_text (err e) = []

unfoldable pub micros_text : Formatters → Result TimestampMicros → Bytes
micros_text x (ok t) = x.itoa t.as_i64 ++ b't' ∷ []
micros_text x (err e) = []

-- The text that a call appends, which for a column whose value fails is the key.
module _ (x : Formatters) where
  unfoldable pub text : OpCase → Call → Bytes
  unfolding key_text nanos_text symbol_text table_name_text micros_text nanos_of micros_of
  text c (table_call name) = table_name_text name
  text c (symbol_call name value) = symbol_text name value
  text c (bool_call name value) = key_text c name ++ (if value then b't' else b'f') ∷ []
  text c (i64_call name value) = key_text c name ++ (x.itoa value ++ b'i' ∷ [])
  text c (f64_call name value) = key_text c name ++ format_f64 x value
  text c (str_call name value) =
      key_text c name ++ 0x22 ∷ (escape must_escape_quoted (bytes value) ++ 0x22 ∷ [])
  text c (ts_call name value) = key_text c name ++ micros_text x (micros_of value)
  text c (long256_call name value) = key_text c name ++ b'0' ∷ b'x' ∷ (x.hex value ++ b'i' ∷ [])
  text c (at_call timestamp) = nanos_text x (nanos_of timestamp)
  text c at_now_call = 0x0a ∷ []

-- The state behind a call that is not refused.
unfoldable pub next_state : Op → BufferState → BufferState
next_state Op.table s = record s { op_case = OpCase.table_written }
next_state Op.symbol s = record s { op_case = OpCase.symbol_written }
next_state Op.column s = record s { op_case = OpCase.column_written }
next_state Op.at s = record s {
  op_case = OpCase.may_flush_or_table;
  row_count = (s.row_count + 1) % 2 ^ 64;
}
next_state Op.flush s = s

unfoldable pub noted : Call → BufferState → BufferState
unfolding note_table
noted (table_call (ok n)) s = note_table n.name s
noted _ s = s

unfoldable pub after : Formatters → Call → Buffer → Buffer
unfolding next_state noted
after x c b = record b {
  output = b.output ++ text x b.state.op_case c;
  state = noted c (next_state (op_of c) b.state);
}

-- The result and the buffer of a call, by its first refusal and that of its value.
abbrev pub outcome : Option Error → Option Error → Buffer → Buffer → Result (Unit {0}) × Buffer
outcome (some e) v b b' = (err e, b)
outcome none (some e) b b' = (err e, b')
outcome none none b b' = (ok tt, b')
