-- ===== src/Capi/Header.antt =====
-- The declarations of include/questdb/ingress/line_sender.h that the C++ layer and the C programs
-- call, as records of commands. A `const char*` with a length is the bytes behind the pointer, an
-- `int64_t` a ℤ, a `double` its 64 bits. A function with an `err_out` returns an `Outcome`.
use c_questdb_client.Base.{ℕ, Bool}
use c_questdb_client.Base.Int.{ℤ}
use c_questdb_client.Error.{Message}
use c_questdb_client.Text.{Bytes}
use c_questdb_client.Capi.Codes.{LineSenderErrorCode}
use c_questdb_client.Capi.Enums.{LineSenderProtocol, LineSenderCa}
use c_questdb_client.Capi.Memory.{Ptr, Cmd, Outcome}

pub record LineSenderUtf8 : Type 0 where
  pub len : ℕ
  pub buf : Bytes

pub record LineSenderTableName : Type 0 where
  pub len : ℕ
  pub buf : Bytes

pub record LineSenderColumnName : Type 0 where
  pub len : ℕ
  pub buf : Bytes

pub record ErrorApi : Type 0 where
  pub get_code : Ptr → Cmd LineSenderErrorCode
  pub msg : Ptr → Cmd Message
  pub free : Ptr → Cmd (Unit {0})

pub record NameApi : Type 0 where
  pub utf8_init : (len : ℕ) (buf : Bytes) → Cmd (Outcome LineSenderUtf8)
  pub utf8_assert : (len : ℕ) (buf : Bytes) → Cmd LineSenderUtf8
  pub table_name_init : (len : ℕ) (buf : Bytes) → Cmd (Outcome LineSenderTableName)
  pub table_name_assert : (len : ℕ) (buf : Bytes) → Cmd LineSenderTableName
  pub column_name_init : (len : ℕ) (buf : Bytes) → Cmd (Outcome LineSenderColumnName)
  pub column_name_assert : (len : ℕ) (buf : Bytes) → Cmd LineSenderColumnName

pub record BufferApi : Type 0 where
  pub new : Cmd Ptr
  pub with_max_name_len : ℕ → Cmd Ptr
  pub free : Ptr → Cmd (Unit {0})
  pub clone : Ptr → Cmd Ptr
  pub reserve : Ptr → (additional : ℕ) → Cmd (Unit {0})
  pub set_marker : Ptr → Cmd (Outcome (Unit {0}))
  pub rewind_to_marker : Ptr → Cmd (Outcome (Unit {0}))
  pub clear_marker : Ptr → Cmd (Unit {0})
  pub clear : Ptr → Cmd (Unit {0})
  pub size : Ptr → Cmd ℕ
  pub row_count : Ptr → Cmd ℕ
  pub transactional : Ptr → Cmd Bool
  pub peek : Ptr → Cmd Bytes

pub record ColumnApi : Type 0 where
  pub table : Ptr → LineSenderTableName → Cmd (Outcome (Unit {0}))
  pub symbol : Ptr → LineSenderColumnName → LineSenderUtf8 → Cmd (Outcome (Unit {0}))
  pub column_bool : Ptr → LineSenderColumnName → Bool → Cmd (Outcome (Unit {0}))
  pub column_i64 : Ptr → LineSenderColumnName → ℤ → Cmd (Outcome (Unit {0}))
  pub column_f64 : Ptr → LineSenderColumnName → ℕ → Cmd (Outcome (Unit {0}))
  pub column_str : Ptr → LineSenderColumnName → LineSenderUtf8 → Cmd (Outcome (Unit {0}))
  pub column_ts_nanos : Ptr → LineSenderColumnName → ℤ → Cmd (Outcome (Unit {0}))
  pub column_ts_micros : Ptr → LineSenderColumnName → ℤ → Cmd (Outcome (Unit {0}))

pub record AtApi : Type 0 where
  pub at_nanos : Ptr → ℤ → Cmd (Outcome (Unit {0}))
  pub at_micros : Ptr → ℤ → Cmd (Outcome (Unit {0}))
  pub at_now : Ptr → Cmd (Outcome (Unit {0}))

pub record FlushApi : Type 0 where
  pub must_close : Ptr → Cmd Bool
  pub close : Ptr → Cmd (Unit {0})
  pub flush : (sender buffer : Ptr) → Cmd (Outcome (Unit {0}))
  pub flush_and_keep : (sender buffer : Ptr) → Cmd (Outcome (Unit {0}))
  pub flush_and_keep_with_flags :
      (sender buffer : Ptr) (transactional : Bool) → Cmd (Outcome (Unit {0}))

-- Making, copying and freeing options
pub record OptsApi : Type 0 where
  pub from_conf : LineSenderUtf8 → Cmd (Outcome Ptr)
  pub from_env : Cmd (Outcome Ptr)
  pub new : LineSenderProtocol → (host : LineSenderUtf8) → (port : ℕ) → Cmd Ptr
  pub new_service : LineSenderProtocol → (host port : LineSenderUtf8) → Cmd Ptr
  pub clone : Ptr → Cmd Ptr
  pub free : Ptr → Cmd (Unit {0})

-- The functions that set an option
pub record OptsAuthApi : Type 0 where
  pub bind_interface : Ptr → LineSenderUtf8 → Cmd (Outcome (Unit {0}))
  pub username : Ptr → LineSenderUtf8 → Cmd (Outcome (Unit {0}))
  pub password : Ptr → LineSenderUtf8 → Cmd (Outcome (Unit {0}))
  pub token : Ptr → LineSenderUtf8 → Cmd (Outcome (Unit {0}))
  pub token_x : Ptr → LineSenderUtf8 → Cmd (Outcome (Unit {0}))
  pub token_y : Ptr → LineSenderUtf8 → Cmd (Outcome (Unit {0}))
  pub auth_timeout : Ptr → (millis : ℕ) → Cmd (Outcome (Unit {0}))

pub record OptsTlsApi : Type 0 where
  pub tls_verify : Ptr → Bool → Cmd (Outcome (Unit {0}))
  pub tls_ca : Ptr → LineSenderCa → Cmd (Outcome (Unit {0}))
  pub tls_roots : Ptr → (path : LineSenderUtf8) → Cmd (Outcome (Unit {0}))

pub record OptsHttpApi : Type 0 where
  pub max_buf_size : Ptr → ℕ → Cmd (Outcome (Unit {0}))
  pub retry_timeout : Ptr → (millis : ℕ) → Cmd (Outcome (Unit {0}))
  pub request_min_throughput : Ptr → (bytes_per_sec : ℕ) → Cmd (Outcome (Unit {0}))
  pub request_timeout : Ptr → (millis : ℕ) → Cmd (Outcome (Unit {0}))
  pub user_agent : Ptr → LineSenderUtf8 → Cmd (Outcome (Unit {0}))

pub record BuildApi : Type 0 where
  pub build : (opts : Ptr) → Cmd (Outcome Ptr)
  pub from_conf : LineSenderUtf8 → Cmd (Outcome Ptr)
  pub from_env : Cmd (Outcome Ptr)

pub record ClockApi : Type 0 where
  pub now_nanos : Cmd ℤ
  pub now_micros : Cmd ℤ

pub record LineSenderApi : Type 0 where
  pub errors : ErrorApi
  pub names : NameApi
  pub buffers : BufferApi
  pub columns : ColumnApi
  pub ats : AtApi
  pub flushes : FlushApi
  pub opts : OptsApi
  pub opts_auth : OptsAuthApi
  pub opts_tls : OptsTlsApi
  pub opts_http : OptsHttpApi
  pub builds : BuildApi
  pub clock : ClockApi
