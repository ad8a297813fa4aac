-- ===== src/Capi/Ffi/Opts.antt =====
-- The functions of questdb-rs-ffi/src/lib.rs on options and for building a sender.
pub mod Chain
use c_questdb_client.Base.{
  ℕ, zero, suc, ◌+◌, ◌/◌, ◌%◌, Bool, Option, none, some, List, [], ◌∷◌, ◌++◌, ltb, ◌==◌,
  if◌then◌else◌, codes,
}
use c_questdb_client.Error.{Result, ok, err, Error}
use c_questdb_client.Text.{Str}
use c_questdb_client.Builder
use c_questdb_client.Builder.{SenderBuilder, rust_agent}
use c_questdb_client.Builder.Setters
use c_questdb_client.Builder.Conf
use c_questdb_client.Builder.Build.{Environment, build}
use c_questdb_client.Sender.{Sender}
use c_questdb_client.Capi.Enums.{
  LineSenderProtocol, LineSenderCa, to_protocol, to_ca, ffi_protocol, ffi_ca, c_protocol_number,
  c_ca_number,
}
use c_questdb_client.Capi.Memory.{
  Ptr, null, Cmd, pure, ◌>>=◌, ◌>>◌, aborted, Outcome, done, failed, alloc_error, alloc_opts,
  load_opts, store_opts, alloc_sender, found,
}
use c_questdb_client.Capi.Header.{LineSenderUtf8}
use c_questdb_client.Capi.Ffi.{as_str, bubble}

-- `u16::to_string`: a `u16` has at most five digits.
decimal : (digits n : ℕ) → Str
decimal zero n = []
decimal (suc digits) n =
    let front = decimal digits (n / 10) in (if ltb n 10 then [] else front) ++ (b'0' + n % 10) ∷ []

unfoldable pub port_text : ℕ → Str
unfolding decimal
port_text port = decimal 5 port

-- `concat!("questdb/c/", env!("CARGO_PKG_VERSION"))`
abbrev pub c_agent : Str
c_agent = codes "questdb/c/4.0.3"

-- `expect`: a panic in a C function ends the process.
abbrev pub expect : {A : Type 0} → Result A → Cmd A
expect (ok a) m = pure a m
expect (err e) m = aborted

-- `bubble_err_to_c!` for a function that returns a pointer, and the box around the value.
abbrev boxed : {A : Type 0} → (A → Cmd Ptr) → Result A → Cmd (Outcome Ptr)
boxed alloc (ok a) = do p ← alloc a; pure (done p)
boxed alloc (err e) = do q ← alloc_error e; pure (failed q)

-- `upd_opts!`: where the setter fails, the options are replaced by those of a dummy.
abbrev pub dummy : SenderBuilder
unfolding Builder.new
dummy = Builder.new rust_agent Builder.tcp (codes "localhost") (codes "1")

abbrev updated : Ptr → Result SenderBuilder → Cmd (Outcome (Unit {0}))
updated p (ok b) = do store_opts p (some b); pure (done tt)
updated p (err e) = do q ← alloc_error e; store_opts p (some dummy); pure (failed q)

unfoldable pub upd_opts : Ptr → (SenderBuilder → Result SenderBuilder) → Cmd (Outcome (Unit {0}))
upd_opts p func = do b ← load_opts p; updated p (func b)

module _ (env : Environment) where
  unfoldable pub opts_from_conf : LineSenderUtf8 → Cmd (Outcome Ptr)
  opts_from_conf config = boxed alloc_opts (Conf.from_conf env (as_str config))

  unfoldable pub opts_from_env : Cmd (Outcome Ptr)
  opts_from_env = boxed alloc_opts (Conf.from_env env)

-- The constant that C passes is read as that of lib.rs with its number; the behaviour of a number
-- without one is undefined.
unfoldable pub opts_new : LineSenderProtocol → LineSenderUtf8 → (port : ℕ) → Cmd Ptr
unfolding Builder.new ffi_protocol c_protocol_number
opts_new protocol host port = do
  c ← found (ffi_protocol (c_protocol_number protocol))
  b ← expect (
      Setters.user_agent c_agent
        (Builder.new rust_agent (to_protocol c) (as_str host) (port_text port)))
  alloc_opts b

unfoldable pub opts_new_service : LineSenderProtocol → (host port : LineSenderUtf8) → Cmd Ptr
unfolding Builder.new ffi_protocol c_protocol_number
opts_new_service protocol host port = do
  c ← found (ffi_protocol (c_protocol_number protocol))
  b ← expect (
      Setters.user_agent c_agent
        (Builder.new rust_agent (to_protocol c) (as_str host) (as_str port)))
  alloc_opts b

unfoldable pub opts_bind_interface : Ptr → LineSenderUtf8 → Cmd (Outcome (Unit {0}))
unfolding upd_opts
opts_bind_interface p bind_interface = upd_opts p (Setters.bind_interface (as_str bind_interface))

unfoldable pub opts_username : Ptr → LineSenderUtf8 → Cmd (Outcome (Unit {0}))
unfolding upd_opts
opts_username p username = upd_opts p (Setters.username (as_str username))

unfoldable pub opts_password : Ptr → LineSenderUtf8 → Cmd (Outcome (Unit {0}))
unfolding upd_opts
opts_password p password = upd_opts p (Setters.password (as_str password))

unfoldable pub opts_token : Ptr → LineSenderUtf8 → Cmd (Outcome (Unit {0}))
unfolding upd_opts
opts_token p token = upd_opts p (Setters.token (as_str token))

unfoldable pub opts_token_x : Ptr → LineSenderUtf8 → Cmd (Outcome (Unit {0}))
unfolding upd_opts
opts_token_x p token_x = upd_opts p (Setters.token_x (as_str token_x))

unfoldable pub opts_token_y : Ptr → LineSenderUtf8 → Cmd (Outcome (Unit {0}))
unfolding upd_opts
opts_token_y p token_y = upd_opts p (Setters.token_y (as_str token_y))

-- A `Duration` is its milliseconds.
unfoldable pub opts_auth_timeout : Ptr → (timeout_millis : ℕ) → Cmd (Outcome (Unit {0}))
unfolding upd_opts
opts_auth_timeout p timeout_millis = upd_opts p (Setters.auth_timeout timeout_millis)

unfoldable pub opts_tls_verify : Ptr → Bool → Cmd (Outcome (Unit {0}))
unfolding upd_opts
opts_tls_verify p verify = upd_opts p (Setters.tls_verify verify)

unfoldable pub opts_tls_ca : Ptr → LineSenderCa → Cmd (Outcome (Unit {0}))
unfolding upd_opts ffi_ca c_ca_number
opts_tls_ca p ca = do c ← found (ffi_ca (c_ca_number ca)); upd_opts p (Setters.tls_ca (to_ca c))

unfoldable pub opts_tls_roots : Environment → Ptr → LineSenderUtf8 → Cmd (Outcome (Unit {0}))
unfolding upd_opts
opts_tls_roots env p path = upd_opts p (Setters.tls_roots env.opens (as_str path))

unfoldable pub opts_max_buf_size : Ptr → ℕ → Cmd (Outcome (Unit {0}))
unfolding upd_opts
opts_max_buf_size p max_buf_size = upd_opts p (Setters.max_buf_size max_buf_size)

unfoldable pub opts_retry_timeout : Ptr → (millis : ℕ) → Cmd (Outcome (Unit {0}))
unfolding upd_opts
opts_retry_timeout p millis = upd_opts p (Setters.retry_timeout millis)

unfoldable pub opts_request_min_throughput : Ptr → (bytes_per_sec : ℕ) → Cmd (Outcome (Unit {0}))
unfolding upd_opts
opts_request_min_throughput p bytes_per_sec =
    upd_opts p (Setters.request_min_throughput bytes_per_sec)

unfoldable pub opts_request_timeout : Ptr → (millis : ℕ) → Cmd (Outcome (Unit {0}))
unfolding upd_opts
opts_request_timeout p millis = upd_opts p (Setters.request_timeout millis)

unfoldable pub opts_user_agent : Ptr → LineSenderUtf8 → Cmd (Outcome (Unit {0}))
unfolding upd_opts
opts_user_agent p user_agent = upd_opts p (Setters.user_agent (as_str user_agent))

unfoldable pub opts_clone : Ptr → Cmd Ptr
opts_clone p = do b ← load_opts p; alloc_opts b

unfoldable pub opts_free : Ptr → Cmd (Unit {0})
opts_free p = if p == null then pure tt else do load_opts p; store_opts p none

-- What `build` ends with, where `none` is a panic.
abbrev built : Option (Result Sender) → Cmd (Outcome Ptr)
built none m = aborted
built (some r) m = boxed alloc_sender r m

module _ (env : Environment) where
  unfoldable pub sender_build : (opts : Ptr) → Cmd (Outcome Ptr)
  sender_build p = do b ← load_opts p; built (build env b)

  -- The sender of a configuration, with the user agent of the C library.
  abbrev pub with_agent : Result SenderBuilder → Cmd (Outcome Ptr)
  with_agent (err e) = boxed alloc_sender (err e)
  with_agent (ok b) = do b ← expect (Setters.user_agent c_agent b); built (build env b)

  unfoldable pub sender_from_conf : LineSenderUtf8 → Cmd (Outcome Ptr)
  sender_from_conf config = with_agent (Conf.from_conf env (as_str config))

  unfoldable pub sender_from_env : Cmd (Outcome Ptr)
  sender_from_env = with_agent (Conf.from_env env)
