-- ===== src/Examples/C/Main.antt =====
-- Whole runs of the C programs in examples/, from their arguments to their exit codes.
use c_questdb_client.Base.{
  ℕ, ◌+◌, ◌^◌, ◌≡◌, ◌<◌, Bool, true, false, List, [], ◌∷◌, ◌++◌, codes, length, ltb, inl, inr,
  Bool-cases, if◌then◌else◌, refl,
}
use c_questdb_client.Text.{Bytes}
use c_questdb_client.Number.{Formatters}
use c_questdb_client.Builder.Build.{Environment}
use c_questdb_client.Builder.Conf
use c_questdb_client.Sender.{Network}
use c_questdb_client.Capi.Memory.{Cmd}
use c_questdb_client.Capi.Header.{LineSenderApi}
use c_questdb_client.Capi.Ffi.Library.{library}
use c_questdb_client.Cpp.LineSender.Constructed.{conf-IsValid, env-IsValid}
use c_questdb_client.Examples.Concat.{joined}
use c_questdb_client.Examples.C
use c_questdb_client.Capi.Ffi
use c_questdb_client.Capi.Ffi.Opts as FfiOpts
use c_questdb_client.Text.Utf8
use c_questdb_client.Examples.C.{displayed_help, argument}
use c_questdb_client.Examples.C.Row.{
  Table, trades, auth, auth_tls, http, tls_ca, from_conf, from_env,
}
use c_questdb_client.Examples.C.Programs
use c_questdb_client.Examples.C.Programs.{keys, address}
use c_questdb_client.Examples.C.Left.{start}
use c_questdb_client.Examples.C.Answer.{answer, connects, example_with-Left}
use c_questdb_client.Examples.C.Exit.{Exits, exits, built-Exits}

-- `main` of the program that writes to a table.
abbrev pub main : LineSenderApi → (calloc : ℕ → Bool) → Table → (argv : List Bytes) → Cmd ℕ
main api calloc trades argv = Programs.main api calloc argv
main api calloc auth argv = Programs.main_auth api calloc argv
main api calloc auth_tls argv = Programs.main_auth_tls api calloc argv
main api calloc http argv = Programs.main_http api calloc argv
main api calloc tls_ca argv = Programs.main_tls_ca api calloc argv
main api calloc from_conf argv = Programs.main_from_conf api
main api calloc from_env argv = Programs.main_from_env api

abbrev host_of : List Bytes → Bytes
host_of argv = argument argv 1 (codes "localhost")

abbrev port_of : List Bytes → Bytes
port_of argv = argument argv 2 (codes "9009")

-- The string that a program starts its configuration with, and those that it appends.
abbrev pub scheme : Table → Bytes
scheme trades = codes "tcp::addr="
scheme auth = codes "tcp::addr="
scheme auth_tls = codes "tcps::addr="
scheme http = codes "http::addr="
scheme tls_ca = codes "tcps::addr="
scheme from_conf = codes "tcp::addr=localhost:9009;"
scheme from_env = []

abbrev pub parts : Table → (argv : List Bytes) → List Bytes
parts trades argv = address (host_of argv) (port_of argv) (codes ";")
parts auth argv = address (host_of argv) (port_of argv) (codes ";" ++ keys)
parts auth_tls argv = address (host_of argv) (port_of argv) (codes ";" ++ keys)
parts http argv = address (host_of argv) (argument argv 2 (codes "9000")) (codes ";")
parts tls_ca argv =
    argument argv 2 (codes "localhost")
    ∷ codes ":"
    ∷ argument argv 3 (codes "9009")
    ∷ codes ";"
    ∷ codes "tls_roots="
    ∷ argument argv 1 []
    ∷ (codes ";" ++ keys)
    ∷ []
parts from_conf argv = []
parts from_env argv = []

abbrev pub conf_of : Table → (argv : List Bytes) → Bytes
conf_of t argv = joined (scheme t) (parts t argv)

-- Whether a program only prints its usage; the last two do not look at their arguments.
abbrev pub helps : Table → (argv : List Bytes) → Bool
helps trades argv = displayed_help argv
helps auth argv = displayed_help argv
helps auth_tls argv = displayed_help argv
helps http argv = displayed_help argv
helps tls_ca argv = displayed_help argv
helps from_conf argv = false
helps from_env argv = false

-- Whether a program has the arguments that it demands: the path of a certificate.
abbrev pub has_args : Table → (argv : List Bytes) → Bool
has_args trades argv = true
has_args auth argv = true
has_args auth_tls argv = true
has_args http argv = true
has_args tls_ca argv = if ltb (length argv) 2 then false else true
has_args from_conf argv = true
has_args from_env argv = true

module _ (x : Formatters) (n : Network) (env : Environment) where
  -- The answer of a program that has its arguments.
  abbrev pub answer_of : Table → (argv : List Bytes) → Bool
  answer_of trades argv = answer x n env trades (conf_of trades argv)
  answer_of auth argv = answer x n env auth (conf_of auth argv)
  answer_of auth_tls argv = answer x n env auth_tls (conf_of auth_tls argv)
  answer_of http argv = answer x n env http (conf_of http argv)
  answer_of tls_ca argv = answer x n env tls_ca (conf_of tls_ca argv)
  answer_of from_conf argv =
      connects x n env from_conf (Conf.from_conf env (codes "tcp::addr=localhost:9009;"))
  answer_of from_env argv = connects x n env from_env (Conf.from_env env)

  from_conf-Exits : Exits (answer_of from_conf []) (Programs.main_from_conf (library x n env) start)
  unfolding Programs.main_from_conf C.main_with Ffi.utf8_assert Ffi.str_unchecked Utf8.from_utf8
      FfiOpts.sender_from_conf
  from_conf-Exits =
      built-Exits x n env from_conf _ (conf-IsValid x n env (codes "tcp::addr=localhost:9009;"))

  from_env-Exits : Exits (answer_of from_env []) (Programs.main_from_env (library x n env) start)
  unfolding Programs.main_from_env C.main_with FfiOpts.sender_from_env
  from_env-Exits = built-Exits x n env from_env _ (env-IsValid x n env)

  -- Where a program does not only print its usage, it ends without a fault, with exit code 0 exactly
  -- when it has its arguments, its configuration gives a sender and the row is flushed with it, else
  -- with 1, and leaves nothing allocated but the buffer of a success.
  pub main-Exits :
      (t : Table) (argv : List Bytes)
      → helps t argv ≡ false
      → length (conf_of t argv) + 1 < 2 ^ 64
      → Exits
          (if has_args t argv then answer_of t argv else false)
          (main (library x n env) env.calloc t argv start)
  unfolding Programs.main Programs.example Programs.main_auth Programs.example_auth
      Programs.main_auth_tls Programs.example_auth_tls Programs.main_http Programs.example_http
      Programs.main_tls_ca Programs.example_tls_ca
  main-Exits trades argv no_help small = rw no_help (
      exits x n env _ _
        (example_with-Left x n env trades (scheme trades) (parts trades argv) small))
  main-Exits auth argv no_help small =
      rw no_help
        (exits x n env _ _ (example_with-Left x n env auth (scheme auth) (parts auth argv) small))
  main-Exits auth_tls argv no_help small = rw no_help (
      exits x n env _ _
        (example_with-Left x n env auth_tls (scheme auth_tls) (parts auth_tls argv) small))
  main-Exits http argv no_help small =
      rw no_help
        (exits x n env _ _ (example_with-Left x n env http (scheme http) (parts http argv) small))
  main-Exits tls_ca argv no_help small = elim (Bool-cases (ltb (length argv) 2)) [
    | inl short ↦
        rw (no_help, short)
          (
            refl,
            λ q. refl,
            record {
              errors = λ q. refl;
              senders = λ q. refl;
              opts = λ q. refl;
              strings = λ q. refl;
            },
          )
    | inr enough ↦
        rw (no_help, enough)
          (exits x n env _ _
            (example_with-Left x n env tls_ca (scheme tls_ca) (parts tls_ca argv) small))
  ]
  main-Exits from_conf argv no_help small = from_conf-Exits
  main-Exits from_env argv no_help small = from_env-Exits
