-- ===== src/Examples/C/Programs.antt =====
-- Each of the C programs in examples/: its configuration string, its table, and `main`.
use c_questdb_client.Base.{ℕ, Bool, List, [], ◌∷◌, ◌++◌, codes, if◌then◌else◌, ltb, length}
use c_questdb_client.Text.{Bytes}
use c_questdb_client.Capi.Memory.{Cmd, pure, ◌>>=◌}
use c_questdb_client.Capi.Header.{LineSenderApi}
use c_questdb_client.Examples.C.{example_with, main_with, displayed_help, argument, exit_code}

-- What the programs with ECDSA keys append to the address.
abbrev pub keys : Bytes
keys =
    codes "username=admin;"
    ++ codes "token=5UjEMuA0Pj5pjK8a-fa24dyIf-Es5mYny3oE_Wmus48;"
    ++ codes "token_x=fLKYEaoEb9lrn3nkwLDA-M_xnuFOdSt9y0Z7_vWSHLU;"
    ++ codes "token_y=Dt5tbS1dEDMSYfym3fgMv0B99szno-dFc1rYF9t0aac;"

-- The arguments behind the first of `concat`.
abbrev pub address : (host port last : Bytes) → List Bytes
address host port last = host ∷ codes ":" ∷ port ∷ last ∷ []

module _ (api : LineSenderApi) (calloc : ℕ → Bool) where
  -- line_sender_c_example.c
  unfoldable pub example : (host port : Bytes) → Cmd Bool
  example host port =
      example_with api calloc (codes "c_trades") (codes "tcp::addr=")
        (address host port (codes ";"))

  -- line_sender_c_example_auth.c
  unfoldable pub example_auth : (host port : Bytes) → Cmd Bool
  example_auth host port =
      example_with api calloc (codes "c_trades_auth") (codes "tcp::addr=")
        (address host port (codes ";" ++ keys))

  -- line_sender_c_example_auth_tls.c
  unfoldable pub example_auth_tls : (host port : Bytes) → Cmd Bool
  example_auth_tls host port =
      example_with api calloc (codes "c_trades_auth_tls") (codes "tcps::addr=")
        (address host port (codes ";" ++ keys))

  -- line_sender_c_example_http.c
  unfoldable pub example_http : (host port : Bytes) → Cmd Bool
  example_http host port =
      example_with api calloc (codes "c_trades_http") (codes "http::addr=")
        (address host port (codes ";"))

  -- line_sender_c_example_tls_ca.c
  unfoldable pub example_tls_ca : (ca_path host port : Bytes) → Cmd Bool
  example_tls_ca ca_path host port =
      example_with api calloc (codes "c_trades_tls_ca") (codes "tcps::addr=") (
        host
        ∷ codes ":"
        ∷ port
        ∷ codes ";"
        ∷ codes "tls_roots="
        ∷ ca_path
        ∷ (codes ";" ++ keys)
        ∷ [])

  -- `main`, where HOST and PORT are the first two arguments
  abbrev main_of : ((host port : Bytes) → Cmd Bool) → (port : Bytes) → (argv : List Bytes) → Cmd ℕ
  main_of run port argv = if displayed_help argv then pure 0 else (do
    b ← run (argument argv 1 (codes "localhost")) (argument argv 2 port)
    pure (exit_code b))

  unfoldable pub main : (argv : List Bytes) → Cmd ℕ
  main argv = main_of example (codes "9009") argv

  unfoldable pub main_auth : (argv : List Bytes) → Cmd ℕ
  main_auth argv = main_of example_auth (codes "9009") argv

  unfoldable pub main_auth_tls : (argv : List Bytes) → Cmd ℕ
  main_auth_tls argv = main_of example_auth_tls (codes "9009") argv

  unfoldable pub main_http : (argv : List Bytes) → Cmd ℕ
  main_http argv = main_of example_http (codes "9000") argv

  unfoldable pub main_tls_ca : (argv : List Bytes) → Cmd ℕ
  main_tls_ca argv =
      if displayed_help argv then pure 0 else if ltb (length argv) 2 then pure 1 else (do
        b ←
            example_tls_ca (argument argv 1 []) (argument argv 2 (codes "localhost"))
              (argument argv 3 (codes "9009"))
        pure (exit_code b))

-- line_sender_c_example_from_conf.c
unfoldable pub main_from_conf : LineSenderApi → Cmd ℕ
main_from_conf api = do
  conf ← api.names.utf8_assert 25 (codes "tcp::addr=localhost:9009;")
  main_with api (codes "c_trades_from_conf") (api.builds.from_conf conf)

-- line_sender_c_example_from_env.c
unfoldable pub main_from_env : LineSenderApi → Cmd ℕ
main_from_env api = main_with api (codes "c_trades_from_env") api.builds.from_env
