-- ===== src/Examples/Cpp/Main.antt =====
-- Whole runs of the C++ programs in examples/, from their arguments to their exit codes.
use c_questdb_client.Base.{
  ℕ, ◌≡◌, refl, Bool, false, some, List, [], codes, length, ltb, if◌then◌else◌, inl, inr,
  Bool-cases,
}
use c_questdb_client.Base.Int.{pos}
use c_questdb_client.Text.{Bytes}
use c_questdb_client.Text.Utf8.{from_utf8}
use c_questdb_client.Number.{Formatters}
use c_questdb_client.Timestamp
use c_questdb_client.Builder.Build.{Environment}
use c_questdb_client.Builder.Conf
use c_questdb_client.Sender.{Network}
use c_questdb_client.Capi.Memory.{Cmd, Run, returned, thrown, aborted, fault, and_then}
use c_questdb_client.Capi.Header.{LineSenderApi}
use c_questdb_client.Capi.Ffi.Library.{library}
use c_questdb_client.Examples.C.{argument, exit_code}
use c_questdb_client.Examples.C.Row.{
  Table, trades, auth, auth_tls, http, tls_ca, from_conf, from_env,
}
use c_questdb_client.Examples.C.Left.{start, Freed, Leaks}
use c_questdb_client.Examples.C.Main.{has_args}
use c_questdb_client.Examples.Cpp.{displayed_help}
use c_questdb_client.Examples.Cpp.Programs
use c_questdb_client.Examples.Cpp.Programs.{address, with_keys, with_roots}
use c_questdb_client.Examples.Cpp.Freed.{Ends}
use c_questdb_client.Examples.Cpp.Answer.{decodes, connects, string-Ends, env-Ends}

-- `main` of the program that writes to a table.
abbrev pub main : LineSenderApi → Table → (argv : List Bytes) → Cmd ℕ
main api trades argv = Programs.main api argv
main api auth argv = Programs.main_auth api argv
main api auth_tls argv = Programs.main_auth_tls api argv
main api http argv = Programs.main_http api argv
main api tls_ca argv = Programs.main_tls_ca api argv
main api from_conf argv = Programs.main_from_conf api
main api from_env argv = Programs.main_from_env api

-- The configuration string of a program.
abbrev pub conf_of : Table → (argv : List Bytes) → Bytes
conf_of trades argv =
    address (codes "tcp::addr=") (argument argv 1 (codes "localhost"))
      (argument argv 2 (codes "9009"))
conf_of auth argv =
    with_keys (codes "tcp::addr=") (argument argv 1 (codes "localhost"))
      (argument argv 2 (codes "9009"))
conf_of auth_tls argv =
    with_keys (codes "tcps::addr=") (argument argv 1 (codes "localhost"))
      (argument argv 2 (codes "9009"))
conf_of http argv =
    address (codes "http::addr=") (argument argv 1 (codes "localhost"))
      (argument argv 2 (codes "9009"))
conf_of tls_ca argv =
    with_roots (argument argv 1 []) (argument argv 2 (codes "localhost"))
      (argument argv 3 (codes "9009"))
conf_of from_conf argv = codes "tcp::addr=localhost:9009;"
conf_of from_env argv = []

-- Whether a program only prints its usage; the last two do not look at their arguments.
abbrev pub helps : Table → (argv : List Bytes) → Bool
helps trades argv = displayed_help argv
helps auth argv = displayed_help argv
helps auth_tls argv = displayed_help argv
helps http argv = displayed_help argv
helps tls_ca argv = displayed_help argv
helps from_conf argv = false
helps from_env argv = false

-- The program exits with the code of an answer, and nothing is left allocated.
abbrev pub Clean : (a : Bool) → Run ℕ → Type 0
Clean a (returned c m) = (c ≡ exit_code a) × Leaks false m × Freed m
Clean a (thrown e m) = ⊥
Clean a aborted = ⊥
Clean a fault = ⊥

exits-Clean :
    (a : Bool) (r : Run Bool) → Ends a r → Clean a (and_then r (λ b. returned (exit_code b)))
exits-Clean a (returned b m) (is, leaks, freed) = (rw is refl, leaks, freed)
exits-Clean a (thrown e m) h = absurd h
exits-Clean a aborted h = absurd h
exits-Clean a fault h = absurd h

module _ (x : Formatters) (n : Network) (env : Environment) where
  -- The answer of a program that has its arguments, at a time of the clock: that of its
  -- configuration string, or of the environment.
  abbrev pub answer_of : Table → (ts : ℕ) → (argv : List Bytes) → Bool
  answer_of trades ts argv = decodes x n env trades ts (from_utf8 (conf_of trades argv))
  answer_of auth ts argv = decodes x n env auth ts (from_utf8 (conf_of auth argv))
  answer_of auth_tls ts argv = decodes x n env auth_tls ts (from_utf8 (conf_of auth_tls argv))
  answer_of http ts argv = decodes x n env http ts (from_utf8 (conf_of http argv))
  answer_of tls_ca ts argv = decodes x n env tls_ca ts (from_utf8 (conf_of tls_ca argv))
  answer_of from_conf ts argv = decodes x n env from_conf ts (from_utf8 (conf_of from_conf argv))
  answer_of from_env ts argv = connects x n env from_env ts (Conf.from_env env)

  -- Where a program does not only print its usage, and the clock gives a time from 1970 on that fits
  -- into an `i64`, the program ends without a fault or an abort, with exit code 0 exactly when it
  -- has its arguments, its configuration gives a sender and the row is flushed with it, else with 1,
  -- and leaves nothing allocated.
  pub main-Clean :
      (t : Table) (ts : ℕ) (argv : List Bytes)
      → helps t argv ≡ false
      → Timestamp.nanos_now env.system_time ≡ some (record { as_i64 = pos ts })
      → Clean
          (if has_args t argv then answer_of t ts argv else false)
          (main (library x n env) t argv start)
  unfolding Programs.main Programs.example Programs.main_auth Programs.example_auth
      Programs.main_auth_tls Programs.example_auth_tls Programs.main_http Programs.example_http
      Programs.main_tls_ca Programs.example_tls_ca Programs.main_from_conf Programs.main_from_env
  main-Clean trades ts argv no_help clock =
      rw no_help (exits-Clean _ _ (string-Ends x n env trades ts clock (conf_of trades argv)))
  main-Clean auth ts argv no_help clock =
      rw no_help (exits-Clean _ _ (string-Ends x n env auth ts clock (conf_of auth argv)))
  main-Clean auth_tls ts argv no_help clock =
      rw no_help (exits-Clean _ _ (string-Ends x n env auth_tls ts clock (conf_of auth_tls argv)))
  main-Clean http ts argv no_help clock =
      rw no_help (exits-Clean _ _ (string-Ends x n env http ts clock (conf_of http argv)))
  main-Clean tls_ca ts argv no_help clock = elim (Bool-cases (ltb (length argv) 2)) [
    | inl short ↦
        rw (no_help, short)
          (
            refl,
            λ q. refl,
            record {
              errors = λ q. refl;
              senders = λ q. refl;
              opts = λ q. refl;
              strings = λ q. refl;
            },
          )
    | inr enough ↦
        rw (no_help, enough)
          (exits-Clean _ _ (string-Ends x n env tls_ca ts clock (conf_of tls_ca argv)))
  ]
  main-Clean from_conf ts argv no_help clock =
      exits-Clean _ _ (string-Ends x n env from_conf ts clock (conf_of from_conf argv))
  main-Clean from_env ts argv no_help clock = exits-Clean _ _ (env-Ends x n env from_env ts clock)
