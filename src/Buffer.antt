-- ===== src/Buffer.antt =====
-- `Buffer` of questdb-rs/src/ingress/mod.rs. A method with `&mut self` is a function of the buffer
-- that returns its result and the buffer as it leaves it, on an error too. `usize` wraps around.
pub mod Calls
pub mod Marker
pub mod Rows
pub mod Tables
pub mod Utf8
pub mod Progress
use c_questdb_client.Base.{
  ℕ, ◌+◌, ◌%◌, ◌^◌, Bool, true, false, not, Option, none, some, [], ◌∷◌, ◌++◌, ltb, ◌==◌,
  if◌then◌else◌, same_text, take, length, bit_and,
}
use c_questdb_client.Base.Int.{ℤ, is_negative}
use c_questdb_client.Op.{Op, OpCase, bit, bits}
use c_questdb_client.Error.{
  Result, ok, err, error, invalid_api_call, invalid_name, invalid_timestamp, name_too_long,
  bad_call, marker_in_line, no_marker, negative_timestamp,
}
use c_questdb_client.Text.{Str, Bytes, len}
use c_questdb_client.Name.TableName.{TableName}
use c_questdb_client.Name.ColumnName.{ColumnName}
use c_questdb_client.Escape.{write_escaped_unquoted, write_escaped_quoted}
use c_questdb_client.Timestamp.{Timestamp, to_micros, to_nanos}
use c_questdb_client.Number.{Formatters, format_f64}

pub record BufferState : Type 0 where
  pub op_case : OpCase
  pub row_count : ℕ
  pub first_table : Option Str
  pub transactional : Bool

abbrev pub new_state : BufferState
new_state = record {
  op_case = OpCase.init;
  row_count = 0;
  first_table = none;
  transactional = true;
}

pub record Buffer : Type 0 where
  pub output : Bytes
  pub state : BufferState
  pub marker : Option (ℕ × BufferState)
  pub max_name_len : ℕ

abbrev pub M : Type 0 → Type 0
M A = Buffer → Result A × Buffer

abbrev pub pure : {A : Type 0} → A → M A
pure a b = (ok a, b)

abbrev pub lift : {A : Type 0} → Result A → M A
lift r b = (r, b)

abbrev pub modify : (Buffer → Buffer) → M (Unit {0})
modify f b = (ok tt, f b)

module _ {A B : Type 0} where
  abbrev pub and_then : Result A × Buffer → (A → M B) → Result B × Buffer
  and_then (ok a, b) f = f a b
  and_then (err e, b) f = (err e, b)

  infixl 5 ◌>>=◌ ◌>>◌
  abbrev pub ◌>>=◌ : M A → (A → M B) → M B
  m >>= f = λ b. and_then (m b) f

  abbrev pub ◌>>◌ : M A → M B → M B
  m >> k = m >>= λ _. k

-- `Buffer::with_max_name_len`
unfoldable pub with_max_name_len : ℕ → Buffer
with_max_name_len n = record { output = []; state = new_state; marker = none; max_name_len = n }

-- `Buffer::new`
unfoldable pub new : Buffer
unfolding with_max_name_len
new = with_max_name_len 127

-- `(op_case as isize & op as isize) > 0`
unfoldable pub permits : OpCase → Op → Bool
permits c op = ltb 0 (bit_and (bits c) (bit op))

unfoldable pub set_marker : M (Unit {0})
unfolding permits
set_marker b =
    if not (permits b.state.op_case Op.table)
    then (err (error invalid_api_call marker_in_line), b)
    else (ok tt, record b { marker = some (length b.output, b.state) })

-- `self.marker.take()` leaves `None` behind.
unfoldable pub rewind_to : Option (ℕ × BufferState) → M (Unit {0})
rewind_to (some (position, state)) b =
    (ok tt, record b { output = take position b.output; state = state; marker = none })
rewind_to none b = (err (error invalid_api_call no_marker), b)

unfoldable pub rewind_to_marker : M (Unit {0})
unfolding rewind_to
rewind_to_marker b = rewind_to b.marker b

unfoldable pub clear_marker : Buffer → Buffer
clear_marker b = record b { marker = none }

unfoldable pub clear : Buffer → Buffer
clear b = record b { output = []; state = new_state; marker = none }

unfoldable pub check_op : Op → M (Unit {0})
check_op op b =
    if permits b.state.op_case op
    then (ok tt, b)
    else (err (error invalid_api_call (bad_call op b.state.op_case)), b)

unfoldable pub validate_max_name_len : Str → M (Unit {0})
validate_max_name_len name b =
    if ltb b.max_name_len (len name)
    then (err (error invalid_name (name_too_long name b.max_name_len)), b)
    else (ok tt, b)

abbrev push : Bytes → M (Unit {0})
push s = modify λ b. record b { output = b.output ++ s }

abbrev push_unquoted : Str → M (Unit {0})
push_unquoted s = modify λ b. record b { output = write_escaped_unquoted b.output s }

abbrev push_quoted : Str → M (Unit {0})
push_quoted s = modify λ b. record b { output = write_escaped_quoted b.output s }

abbrev set_op_case : OpCase → M (Unit {0})
set_op_case c = modify λ b. record b { state = record (b.state) { op_case = c } }

-- The end of `table`: the first table is kept, another one ends the transactional property.
unfoldable pub note_table : Str → BufferState → BufferState
note_table name s = elim s.first_table [
  | some first ↦ if not (same_text first name) then record s { transactional = false } else s
  | none ↦ record s { first_table = some name }
]

-- The name is what `try_into` makes of the argument: a check of a string, or a checked name.
unfoldable pub table : Result TableName → M (Unit {0})
unfolding check_op validate_max_name_len note_table
table name = do
  n ← lift name
  validate_max_name_len n.name
  check_op Op.table
  push_unquoted n.name
  set_op_case OpCase.table_written
  modify λ b. record b { state = note_table n.name b.state }

unfoldable pub symbol : Result ColumnName → Str → M (Unit {0})
unfolding check_op validate_max_name_len
symbol name value = do
  n ← lift name
  validate_max_name_len n.name
  check_op Op.symbol
  push (b',' ∷ [])
  push_unquoted n.name
  push (b'=' ∷ [])
  push_unquoted value
  set_op_case OpCase.symbol_written

unfoldable pub write_column_key : Result ColumnName → M (Unit {0})
unfolding check_op validate_max_name_len
write_column_key name = do
  n ← lift name
  validate_max_name_len n.name
  check_op Op.column
  modify λ b. record b {
    output = b.output ++ (if permits b.state.op_case Op.symbol then b' ' else b',') ∷ [];
  }
  push_unquoted n.name
  push (b'=' ∷ [])
  set_op_case OpCase.column_written

unfoldable pub column_bool : Result ColumnName → Bool → M (Unit {0})
unfolding write_column_key
column_bool name value = do write_column_key name; push ((if value then b't' else b'f') ∷ [])

unfoldable pub column_str : Result ColumnName → Str → M (Unit {0})
unfolding write_column_key
column_str name value = do write_column_key name; push_quoted value

-- The end of a row, in `at` and `at_now`.
end_row : M (Unit {0})
end_row = modify λ b. record b {
  state = record (b.state) {
    op_case = OpCase.may_flush_or_table;
    row_count = (b.state.row_count + 1) % 2 ^ 64;
  };
}

unfoldable pub at_now : M (Unit {0})
unfolding check_op end_row
at_now = do check_op Op.at; push (0x0a ∷ []); end_row

module _ (x : Formatters) where
  unfoldable pub column_i64 : Result ColumnName → ℤ → M (Unit {0})
  unfolding write_column_key
  column_i64 name value = do write_column_key name; push (x.itoa value); push (b'i' ∷ [])

  unfoldable pub column_f64 : Result ColumnName → ℕ → M (Unit {0})
  unfolding write_column_key
  column_f64 name value = do write_column_key name; push (format_f64 x value)

  unfoldable pub column_ts : Result ColumnName → Result Timestamp → M (Unit {0})
  unfolding write_column_key
  column_ts name value = do
    write_column_key name
    value' ← lift value
    t ← lift (to_micros value')
    push (x.itoa t.as_i64)
    push (b't' ∷ [])

  unfoldable pub column_long256 : Result ColumnName → Bytes → M (Unit {0})
  unfolding write_column_key
  column_long256 name value = do
    write_column_key name
    push (b'0' ∷ b'x' ∷ (x.hex value ++ b'i' ∷ []))

  unfoldable pub at : Result Timestamp → M (Unit {0})
  unfolding check_op end_row
  at timestamp = do
    check_op Op.at
    timestamp' ← lift timestamp
    t ← lift (to_nanos timestamp')
    lift (
        if is_negative t.as_i64
        then err (error invalid_timestamp (negative_timestamp t.as_i64))
        else ok tt)
    push (b' ' ∷ [])
    push (x.itoa t.as_i64)
    push (0x0a ∷ [])
    end_row
