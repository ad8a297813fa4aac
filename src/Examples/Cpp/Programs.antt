-- ===== src/Examples/Cpp/Programs.antt =====
-- Each of the C++ programs in examples/: its configuration string, its table, and `main`.
use c_questdb_client.Base.{ℕ, Bool, List, [], ◌++◌, codes, if◌then◌else◌, ltb, length}
use c_questdb_client.Text.{Bytes}
use c_questdb_client.Capi.Memory.{Cmd, pure, ◌>>=◌}
use c_questdb_client.Capi.Header.{LineSenderApi}
use c_questdb_client.Cpp.LineSender
use c_questdb_client.Examples.Concat.{text}
use c_questdb_client.Examples.C.{argument, exit_code}
use c_questdb_client.Examples.C.Programs.{keys}
use c_questdb_client.Examples.Cpp.{tried, from_string, displayed_help}

-- The configuration strings, from what `std::string_view` takes of an argument.
abbrev pub address : (scheme host port : Bytes) → Bytes
address scheme host port = scheme ++ text host ++ codes ":" ++ text port ++ codes ";"

abbrev pub with_keys : (scheme host port : Bytes) → Bytes
with_keys scheme host port = address scheme host port ++ keys

abbrev pub with_roots : (ca_path host port : Bytes) → Bytes
with_roots ca_path host port =
    with_keys (codes "tcps::addr=") host port ++ codes "tls_roots=" ++ text ca_path ++ codes ";"

module _ (api : LineSenderApi) where
  -- line_sender_cpp_example.cpp
  unfoldable pub example : (host port : Bytes) → Cmd Bool
  example host port =
      tried api (codes "cpp_trades") (from_string api (address (codes "tcp::addr=") host port))

  -- line_sender_cpp_example_auth.cpp
  unfoldable pub example_auth : (host port : Bytes) → Cmd Bool
  example_auth host port =
      tried api (codes "cpp_trades_auth")
        (from_string api (with_keys (codes "tcp::addr=") host port))

  -- line_sender_cpp_example_auth_tls.cpp
  unfoldable pub example_auth_tls : (host port : Bytes) → Cmd Bool
  example_auth_tls host port =
      tried api (codes "cpp_trades_auth_tls")
        (from_string api (with_keys (codes "tcps::addr=") host port))

  -- line_sender_cpp_example_http.cpp
  unfoldable pub example_http : (host port : Bytes) → Cmd Bool
  example_http host port =
      tried api (codes "cpp_trades_http")
        (from_string api (address (codes "http::addr=") host port))

  -- line_sender_cpp_example_tls_ca.cpp
  unfoldable pub example_tls_ca : (ca_path host port : Bytes) → Cmd Bool
  example_tls_ca ca_path host port =
      tried api (codes "cpp_trades_tls_ca") (from_string api (with_roots ca_path host port))

  -- `main`, where HOST and PORT are the first two arguments
  abbrev main_of : ((host port : Bytes) → Cmd Bool) → (argv : List Bytes) → Cmd ℕ
  main_of run argv = if displayed_help argv then pure 0 else (do
    b ← run (argument argv 1 (codes "localhost")) (argument argv 2 (codes "9009"))
    pure (exit_code b))

  unfoldable pub main : (argv : List Bytes) → Cmd ℕ
  main argv = main_of example argv

  unfoldable pub main_auth : (argv : List Bytes) → Cmd ℕ
  main_auth argv = main_of example_auth argv

  unfoldable pub main_auth_tls : (argv : List Bytes) → Cmd ℕ
  main_auth_tls argv = main_of example_auth_tls argv

  unfoldable pub main_http : (argv : List Bytes) → Cmd ℕ
  main_http argv = main_of example_http argv

  unfoldable pub main_tls_ca : (argv : List Bytes) → Cmd ℕ
  main_tls_ca argv =
      if displayed_help argv then pure 0 else if ltb (length argv) 2 then pure 1 else (do
        b ←
            example_tls_ca (argument argv 1 []) (argument argv 2 (codes "localhost"))
              (argument argv 3 (codes "9009"))
        pure (exit_code b))

  -- line_sender_cpp_example_from_conf.cpp
  unfoldable pub main_from_conf : Cmd ℕ
  main_from_conf = do
    b ←
        tried api (codes "cpp_trades_from_conf")
          (from_string api (codes "tcp::addr=localhost:9009;"))
    pure (exit_code b)

  -- line_sender_cpp_example_from_env.cpp
  unfoldable pub main_from_env : Cmd ℕ
  main_from_env = do
    b ← tried api (codes "cpp_trades_from_env") (LineSender.from_env api)
    pure (exit_code b)
