-- ===== src/Cpp/Wrapped.antt =====
-- `line_sender_error::wrapped_call`, `from_c` and `basic_view` of line_sender.hpp.
use c_questdb_client.Base.{Option, none, some, ℕ}
use c_questdb_client.Text.{Bytes}
use c_questdb_client.Capi.Codes.{error_code_number, cpp_error_code}
use c_questdb_client.Capi.Memory.{
  Ptr, Run, thrown, Cmd, pure, ◌>>=◌, ◌>>◌, and_then, Exception, Outcome, done, failed,
}
use c_questdb_client.Capi.Header.{
  ErrorApi, LineSenderUtf8, LineSenderTableName, LineSenderColumnName, LineSenderApi,
}

abbrev pub throw : {A : Type 0} → Exception → Cmd A
throw e m = thrown e m

module _ (api : ErrorApi) where
  -- The exception of a C error, which is freed.
  unfoldable pub from_c : Ptr → Cmd Exception
  unfolding cpp_error_code error_code_number
  from_c c_err = do
    code ← api.get_code c_err
    msg ← api.msg c_err
    api.free c_err
    pure (record { code = cpp_error_code (error_code_number code); what = msg })

  abbrev pub wrapped_result : {A : Type 0} → Outcome A → Cmd A
  wrapped_result (done a) = pure a
  wrapped_result (failed c_err) = do e ← from_c c_err; throw e

  abbrev pub wrapped_call : {A : Type 0} → Cmd (Outcome A) → Cmd A
  wrapped_call f = do r ← f; wrapped_result r

module _ (api : LineSenderApi) where
  -- `basic_view` at its three instances
  unfoldable pub utf8_view : (buf : Bytes) (len : ℕ) → Cmd LineSenderUtf8
  utf8_view buf len = wrapped_call api.errors (api.names.utf8_init len buf)

  unfoldable pub table_name_view : (buf : Bytes) (len : ℕ) → Cmd LineSenderTableName
  table_name_view buf len = wrapped_call api.errors (api.names.table_name_init len buf)

  unfoldable pub column_name_view : (buf : Bytes) (len : ℕ) → Cmd LineSenderColumnName
  column_name_view buf len = wrapped_call api.errors (api.names.column_name_init len buf)

-- A destructor that runs behind a command, also when the command throws.
abbrev pub unwind : {A : Type 0} → Run A → Cmd (Unit {0}) → Run A
unwind (Run.returned a m) d = and_then (d m) (λ _. Run.returned a)
unwind (Run.thrown e m) d = and_then (d m) (λ _. Run.thrown e)
unwind Run.aborted d = Run.aborted
unwind Run.fault d = Run.fault

abbrev pub finally : {A : Type 0} → Cmd A → Cmd (Unit {0}) → Cmd A
finally c d = λ m. unwind (c m) d

-- The exception of a command that throws, as a value: how a member function of an object ends.
abbrev pub caught : Run (Unit {0}) → Run (Option Exception)
caught (Run.returned a m) = Run.returned none m
caught (Run.thrown e m) = Run.returned (some e) m
caught Run.aborted = Run.aborted
caught Run.fault = Run.fault

abbrev pub attempt : Cmd (Unit {0}) → Cmd (Option Exception)
attempt c m = caught (c m)

-- A destructor that runs only where the command throws.
abbrev pub if_thrown : {A : Type 0} → Run A → Cmd (Unit {0}) → Run A
if_thrown (Run.returned a m) d = Run.returned a m
if_thrown (Run.thrown e m) d = and_then (d m) (λ _. Run.thrown e)
if_thrown Run.aborted d = Run.aborted
if_thrown Run.fault d = Run.fault

abbrev pub guarded : {A : Type 0} → Cmd A → Cmd (Unit {0}) → Cmd A
guarded c d = λ m. if_thrown (c m) d

-- A `noexcept` function that throws ends the process.
abbrev pub terminated : {A : Type 0} → Run A → Run A
terminated (Run.returned a m) = Run.returned a m
terminated (Run.thrown e m) = Run.aborted
terminated Run.aborted = Run.aborted
terminated Run.fault = Run.fault

abbrev pub noexcept : {A : Type 0} → Cmd A → Cmd A
noexcept c m = terminated (c m)
