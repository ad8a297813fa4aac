-- ===== src/Capi/Ffi/Library.antt =====
-- The functions of questdb-rs-ffi/src/lib.rs that flush, and all of them as the library behind the
-- header.
use c_questdb_client.Base.{Option, Bool, none, some, ◌==◌, if◌then◌else◌}
use c_questdb_client.Number.{Formatters}
use c_questdb_client.Sender
use c_questdb_client.Sender.{Sender, Network, Flushed}
use c_questdb_client.Capi.Memory.{
  aborted, Ptr, null, Cmd, pure, ◌>>=◌, ◌>>◌, Outcome, load_buffer, store_buffer, load_sender,
  store_sender,
}
use c_questdb_client.Base.Int.{ℤ}
use c_questdb_client.Timestamp.{nanos_now, micros_now}
use c_questdb_client.Capi.Header.{LineSenderApi}
use c_questdb_client.Builder.Build.{Environment}
use c_questdb_client.Capi.Ffi
use c_questdb_client.Capi.Ffi.Opts
use c_questdb_client.Capi.Ffi.{bubble}

unfoldable pub sender_must_close : Ptr → Cmd Bool
sender_must_close p = do s ← load_sender p; pure (Sender.must_close s)

-- The connection closes with the object.
unfoldable pub sender_close : Ptr → Cmd (Unit {0})
sender_close p = if p == null then pure tt else do load_sender p; store_sender p none

-- The sender and the result of a flush that leaves the buffer.
abbrev keep : Ptr → Flushed → Cmd (Outcome (Unit {0}))
keep p f = do store_sender p (some f.sender); bubble f.result

module _ (n : Network) where
  unfoldable pub sender_flush : (sender buffer : Ptr) → Cmd (Outcome (Unit {0}))
  sender_flush p q = do
    s ← load_sender p
    b ← load_buffer q
    store_buffer q (some (Sender.flush n s b).1)
    keep p (Sender.flush n s b).0

  unfoldable pub sender_flush_and_keep : (sender buffer : Ptr) → Cmd (Outcome (Unit {0}))
  sender_flush_and_keep p q = do
    s ← load_sender p
    b ← load_buffer q
    keep p (Sender.flush_and_keep n s b)

  unfoldable pub sender_flush_and_keep_with_flags :
      (sender buffer : Ptr) (transactional : Bool) → Cmd (Outcome (Unit {0}))
  sender_flush_and_keep_with_flags p q transactional = do
    s ← load_sender p
    b ← load_buffer q
    keep p (Sender.flush_and_keep_with_flags n s b transactional)

-- The clock; `none` is the panic of `expect`.
abbrev or_panic : {A : Type 0} → Option A → Cmd A
or_panic (some a) m = pure a m
or_panic none m = aborted

unfoldable pub now_nanos : Environment → Cmd ℤ
now_nanos env = do t ← or_panic (nanos_now env.system_time); pure t.as_i64

unfoldable pub now_micros : Environment → Cmd ℤ
now_micros env = do t ← or_panic (micros_now env.system_time); pure t.as_i64

-- The library that the header declares.
abbrev pub library : Formatters → Network → Environment → LineSenderApi
library x n env = record {
  errors = record { get_code = Ffi.error_get_code; msg = Ffi.error_msg; free = Ffi.error_free };
  names = record {
    utf8_init = Ffi.utf8_init;
    utf8_assert = Ffi.utf8_assert;
    table_name_init = Ffi.table_name_init;
    table_name_assert = Ffi.table_name_assert;
    column_name_init = Ffi.column_name_init;
    column_name_assert = Ffi.column_name_assert;
  };
  buffers = record {
    new = Ffi.buffer_new;
    with_max_name_len = Ffi.buffer_with_max_name_len;
    free = Ffi.buffer_free;
    clone = Ffi.buffer_clone;
    reserve = Ffi.buffer_reserve;
    set_marker = Ffi.buffer_set_marker;
    rewind_to_marker = Ffi.buffer_rewind_to_marker;
    clear_marker = Ffi.buffer_clear_marker;
    clear = Ffi.buffer_clear;
    size = Ffi.buffer_size;
    row_count = Ffi.buffer_row_count;
    transactional = Ffi.buffer_transactional;
    peek = Ffi.buffer_peek;
  };
  columns = record {
    table = Ffi.buffer_table;
    symbol = Ffi.buffer_symbol;
    column_bool = Ffi.buffer_column_bool;
    column_i64 = Ffi.buffer_column_i64 x;
    column_f64 = Ffi.buffer_column_f64 x;
    column_str = Ffi.buffer_column_str;
    column_ts_nanos = Ffi.buffer_column_ts_nanos x;
    column_ts_micros = Ffi.buffer_column_ts_micros x;
  };
  ats = record {
    at_nanos = Ffi.buffer_at_nanos x;
    at_micros = Ffi.buffer_at_micros x;
    at_now = Ffi.buffer_at_now;
  };
  flushes = record {
    must_close = sender_must_close;
    close = sender_close;
    flush = sender_flush n;
    flush_and_keep = sender_flush_and_keep n;
    flush_and_keep_with_flags = sender_flush_and_keep_with_flags n;
  };
  opts = record {
    from_conf = Opts.opts_from_conf env;
    from_env = Opts.opts_from_env env;
    new = Opts.opts_new;
    new_service = Opts.opts_new_service;
    clone = Opts.opts_clone;
    free = Opts.opts_free;
  };
  opts_auth = record {
    bind_interface = Opts.opts_bind_interface;
    username = Opts.opts_username;
    password = Opts.opts_password;
    token = Opts.opts_token;
    token_x = Opts.opts_token_x;
    token_y = Opts.opts_token_y;
    auth_timeout = Opts.opts_auth_timeout;
  };
  opts_tls = record {
    tls_verify = Opts.opts_tls_verify;
    tls_ca = Opts.opts_tls_ca;
    tls_roots = Opts.opts_tls_roots env;
  };
  opts_http = record {
    max_buf_size = Opts.opts_max_buf_size;
    retry_timeout = Opts.opts_retry_timeout;
    request_min_throughput = Opts.opts_request_min_throughput;
    request_timeout = Opts.opts_request_timeout;
    user_agent = Opts.opts_user_agent;
  };
  builds = record {
    build = Opts.sender_build env;
    from_conf = Opts.sender_from_conf env;
    from_env = Opts.sender_from_env env;
  };
  clock = record { now_nanos = now_nanos env; now_micros = now_micros env };
}
