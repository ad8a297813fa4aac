-- ===== src/Cpp/Opts.antt =====
-- The classes `_user_agent` and `opts` of line_sender.hpp.
pub mod Chosen
use c_questdb_client.Base.{ℕ, Bool, not, ◌==◌, if◌then◌else◌, codes, length}
use c_questdb_client.Text.{Bytes}
use c_questdb_client.Capi.Enums.{CppProtocol, CppCa, c_protocol, c_ca}
use c_questdb_client.Capi.Memory.{Ptr, null, Cmd, pure, ◌>>=◌, ◌>>◌, found}
use c_questdb_client.Capi.Header.{LineSenderApi, LineSenderUtf8}
use c_questdb_client.Cpp.Wrapped.{wrapped_call, guarded, noexcept}

pub record Opts : Type 0 where
  pub impl : Ptr

abbrev pub cpp_agent : Bytes
cpp_agent = codes "questdb/c++/4.0.3"

module _ (api : LineSenderApi) where
  -- `_user_agent::name`
  unfoldable pub name : Cmd LineSenderUtf8
  name = api.names.utf8_assert (length cpp_agent) cpp_agent

  unfoldable pub set_agent : Ptr → Cmd (Unit {0})
  set_agent p = do agent ← name; wrapped_call api.errors (api.opts_http.user_agent p agent)

  -- `reset`: the object that is left holds null.
  unfoldable pub reset : Opts → Cmd Opts
  reset o =
      if not (o.impl == null)
      then (do api.opts.free o.impl; pure (record { impl = null }))
      else pure o

  unfoldable pub destruct : Opts → Cmd (Unit {0})
  unfolding reset
  destruct o = do o ← reset o; pure tt

  unfoldable pub from_conf : LineSenderUtf8 → Cmd Opts
  from_conf conf = do
    p ← wrapped_call api.errors (api.opts.from_conf conf)
    pure (record { impl = p })

  unfoldable pub from_env : Cmd Opts
  unfolding set_agent name destruct
  from_env = do
    p ← wrapped_call api.errors api.opts.from_env
    let impl : Opts = record { impl = p }
    guarded (set_agent p) (destruct impl)
    pure impl

  -- The two constructors, which are `noexcept`
  unfoldable pub construct : CppProtocol → LineSenderUtf8 → (port : ℕ) → Cmd Opts
  unfolding set_agent name
  construct protocol host port = noexcept do
    c ← found (c_protocol protocol)
    p ← api.opts.new c host port
    set_agent p
    pure (record { impl = p })

  unfoldable pub construct_service : CppProtocol → (host port : LineSenderUtf8) → Cmd Opts
  unfolding set_agent name
  construct_service protocol host port = noexcept do
    c ← found (c_protocol protocol)
    p ← api.opts.new_service c host port
    set_agent p
    pure (record { impl = p })

  unfoldable pub copy : Opts → Cmd Opts
  copy other = do p ← api.opts.clone other.impl; pure (record { impl = p })

  -- The move constructor: the new object, and the one moved from.
  unfoldable pub move : Opts → Cmd (Opts × Opts)
  move other = pure (other, record { impl = null })

  -- The assignments, where the two are different objects.
  unfoldable pub copy_assign : (this other : Opts) → Cmd Opts
  unfolding reset
  copy_assign this other = do
    this ← reset this
    p ← api.opts.clone other.impl
    pure (record { impl = p })

  unfoldable pub move_assign : (this other : Opts) → Cmd (Opts × Opts)
  unfolding reset
  move_assign this other = do this ← reset this; pure (other, record { impl = null })

  -- The setters: the object stays as it is.
  unfoldable pub bind_interface : Opts → LineSenderUtf8 → Cmd (Unit {0})
  bind_interface o value = wrapped_call api.errors (api.opts_auth.bind_interface o.impl value)

  unfoldable pub username : Opts → LineSenderUtf8 → Cmd (Unit {0})
  username o value = wrapped_call api.errors (api.opts_auth.username o.impl value)

  unfoldable pub password : Opts → LineSenderUtf8 → Cmd (Unit {0})
  password o value = wrapped_call api.errors (api.opts_auth.password o.impl value)

  unfoldable pub token : Opts → LineSenderUtf8 → Cmd (Unit {0})
  token o value = wrapped_call api.errors (api.opts_auth.token o.impl value)

  unfoldable pub token_x : Opts → LineSenderUtf8 → Cmd (Unit {0})
  token_x o value = wrapped_call api.errors (api.opts_auth.token_x o.impl value)

  unfoldable pub token_y : Opts → LineSenderUtf8 → Cmd (Unit {0})
  token_y o value = wrapped_call api.errors (api.opts_auth.token_y o.impl value)

  unfoldable pub auth_timeout : Opts → (millis : ℕ) → Cmd (Unit {0})
  auth_timeout o millis = wrapped_call api.errors (api.opts_auth.auth_timeout o.impl millis)

  unfoldable pub tls_verify : Opts → Bool → Cmd (Unit {0})
  tls_verify o verify = wrapped_call api.errors (api.opts_tls.tls_verify o.impl verify)

  unfoldable pub tls_ca : Opts → CppCa → Cmd (Unit {0})
  tls_ca o ca = do
    ca_impl ← found (c_ca ca)
    wrapped_call api.errors (api.opts_tls.tls_ca o.impl ca_impl)

  unfoldable pub tls_roots : Opts → LineSenderUtf8 → Cmd (Unit {0})
  tls_roots o path = wrapped_call api.errors (api.opts_tls.tls_roots o.impl path)

  unfoldable pub max_buf_size : Opts → (size : ℕ) → Cmd (Unit {0})
  max_buf_size o size = wrapped_call api.errors (api.opts_http.max_buf_size o.impl size)

  unfoldable pub retry_timeout : Opts → (millis : ℕ) → Cmd (Unit {0})
  retry_timeout o millis = wrapped_call api.errors (api.opts_http.retry_timeout o.impl millis)

  unfoldable pub request_min_throughput : Opts → (bytes_per_sec : ℕ) → Cmd (Unit {0})
  request_min_throughput o bytes_per_sec =
      wrapped_call api.errors (api.opts_http.request_min_throughput o.impl bytes_per_sec)

  unfoldable pub request_timeout : Opts → (millis : ℕ) → Cmd (Unit {0})
  request_timeout o millis = wrapped_call api.errors (api.opts_http.request_timeout o.impl millis)
