-- ===== src/Cpp/Overloads.antt =====
-- The literals of line_sender.hpp, and the overloads of `line_sender_buffer::column` that make a view
-- or a timestamp of their argument: a view that cannot be made throws before the buffer is used.
use c_questdb_client.Base.{ℕ, Option, length, ◌-◌}
use c_questdb_client.Base.Int.{ℤ}
use c_questdb_client.Text.{Bytes}
use c_questdb_client.Capi.Memory.{Cmd, ◌>>=◌, Exception}
use c_questdb_client.Capi.Header.{
  LineSenderApi, LineSenderUtf8, LineSenderTableName, LineSenderColumnName,
}
use c_questdb_client.Cpp.Wrapped.{utf8_view, table_name_view, column_name_view}
use c_questdb_client.Cpp.Timestamps.{micros_of_time_point, nanos_of_time_point}
use c_questdb_client.Cpp.LineSenderBuffer
use c_questdb_client.Cpp.LineSenderBuffer.{LineSenderBuffer}

module _ (api : LineSenderApi) where
  -- `operator "" _utf8`, `_tn` and `_cn`
  unfoldable pub utf8_literal : (buf : Bytes) (len : ℕ) → Cmd LineSenderUtf8
  utf8_literal buf len = utf8_view api buf len

  unfoldable pub table_name_literal : (buf : Bytes) (len : ℕ) → Cmd LineSenderTableName
  table_name_literal buf len = table_name_view api buf len

  unfoldable pub column_name_literal : (buf : Bytes) (len : ℕ) → Cmd LineSenderColumnName
  column_name_literal buf len = column_name_view api buf len

  -- `column` of a `std::string` or a `std::string_view`, and of an array of characters, which ends in
  -- a NUL.
  unfoldable pub column_string :
      LineSenderBuffer
      → LineSenderColumnName
      → (value : Bytes) → Cmd (LineSenderBuffer × Option Exception)
  column_string o name value = do
    v ← utf8_view api value (length value)
    LineSenderBuffer.column_str api o name v

  unfoldable pub column_array :
      LineSenderBuffer
      → LineSenderColumnName
      → (value : Bytes) (n : ℕ) → Cmd (LineSenderBuffer × Option Exception)
  column_array o name value n = do
    v ← utf8_view api value (n - 1)
    LineSenderBuffer.column_str api o name v

  -- `column` of a time point: in nanoseconds where that is the unit of its clock, and otherwise in
  -- microseconds.
  module _ {A : Type 0} (count : A → ℤ) where
    unfoldable pub column_nanoseconds :
        LineSenderBuffer → LineSenderColumnName → A → Cmd (LineSenderBuffer × Option Exception)
    column_nanoseconds o name tp =
        let nanos = nanos_of_time_point count tp in
        LineSenderBuffer.column_ts_nanos api o name nanos.ts

    unfoldable pub column_time_point :
        LineSenderBuffer → LineSenderColumnName → A → Cmd (LineSenderBuffer × Option Exception)
    column_time_point o name tp =
        let micros = micros_of_time_point count tp in
        LineSenderBuffer.column_ts_micros api o name micros.ts
