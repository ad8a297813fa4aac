-- ===== src/Builder/Build.antt =====
-- `SenderBuilder::build` of questdb-rs/src/ingress/mod.rs, up to the connection, and
-- `to_header_string` of questdb-rs/src/ingress/http.rs. `none` is the panic of `unwrap`.
pub mod Total
use c_questdb_client.Base.{ℕ, Bool, true, false, Option, none, some, List, ◌==◌, if◌then◌else◌, any}
use c_questdb_client.Error.{
  Result, ok, err, Error, error, invalid_api_call, auth_error, interface_over_http,
  newline_in_token, ecdsa_for_http, ◌>>◌,
}
use c_questdb_client.Text.{Str}
use c_questdb_client.Timestamp.{SystemTime}
use c_questdb_client.Builder.{SenderBuilder, HttpConfig, Protocol, is_tcpx, deref}
use c_questdb_client.Builder.Auth.{AuthParams, ecdsa, basic, bearer, build_auth}
use c_questdb_client.Sender.{Sender, ProtocolHandler}

-- A parsed configuration string: the parameters are in the order in which the map is iterated.
pub record Conf : Type 0 where
  pub service : Str
  pub params : List (Str × Str)

-- What the process finds outside: whether a file can be opened, `questdb_confstr::parse_conf_str`,
-- the variable `QDB_CLIENT_CONF`, the connection over TCP with its handshakes, `configure_tls`, whether
-- memory is left for a `calloc` of so many bytes, and what the system's clock says.
pub record Environment : Type 0 where
  pub opens : Str → Bool
  pub parse_conf_str : Str → Option Conf
  pub client_conf : Option Str
  pub connect_tcp : SenderBuilder → Option AuthParams → Result (Unit {0})
  pub configure_tls : SenderBuilder → Result (Unit {0})
  pub calloc : ℕ → Bool
  pub system_time : SystemTime

-- Whether the parameters make a header; `Base64` does not fail.
header_check : Option AuthParams → Result (Unit {0})
header_check none = ok tt
header_check (some (basic u p)) = ok tt
header_check (some (bearer token)) =
    if any (λ c. c == 0x0a) token then err (error auth_error newline_in_token) else ok tt
header_check (some (ecdsa k d v w)) = err (error auth_error ecdsa_for_http)

abbrev is_specified_interface : Option Str → Bool
is_specified_interface none = false
is_specified_interface (some s) = true

abbrev new_sender : ProtocolHandler → SenderBuilder → Sender
new_sender handler b = record {
  handler = handler;
  connected = true;
  max_buf_size = deref b.max_buf_size;
}

module _ (env : Environment) where
  build_tcp : SenderBuilder → Option AuthParams → Result Sender
  build_tcp b auth = env.connect_tcp b auth >> ok (new_sender ProtocolHandler.socket b)

  http_handler : SenderBuilder → Option AuthParams → Result Sender
  http_handler b auth =
      env.configure_tls b >> header_check auth >> ok (new_sender ProtocolHandler.http b)

  -- The interface is refused before the `unwrap` of the configuration.
  build_http : SenderBuilder → Option AuthParams → Option HttpConfig → Option (Result Sender)
  build_http b auth http =
      if is_specified_interface (deref b.net_interface)
      then some (err (error invalid_api_call interface_over_http))
      else elim http [ some config ↦ some (http_handler b auth) | none ↦ none ]

  build_with : SenderBuilder → Result (Option AuthParams) → Option (Result Sender)
  build_with b (err e) = some (err e)
  build_with b (ok auth) =
      if is_tcpx b.protocol then some (build_tcp b auth) else build_http b auth b.http_config

  unfoldable pub build : SenderBuilder → Option (Result Sender)
  unfolding build_with build_tcp build_http http_handler header_check
  build b = build_with b (build_auth b)
