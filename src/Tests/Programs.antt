-- ===== src/Tests/Programs.antt =====
-- The theorems on whole runs of the programs in examples/ at concrete inputs.
use c_questdb_client.Timestamp.{nanos_now}
use c_questdb_client.Examples.Cpp
use c_questdb_client.Examples.Cpp.Main
use c_questdb_client.Examples.Cpp.Main.{Clean, main-Clean}
use c_questdb_client.Base.{◌∷◌, [], codes, arith, refl}
use c_questdb_client.Builder.Build.{Environment}
use c_questdb_client.Capi.Ffi.Library.{library}
use c_questdb_client.Examples.C.Row.{trades}
use c_questdb_client.Examples.C.Left.{start}
use c_questdb_client.Examples.C.Exit.{Exits}
use c_questdb_client.Examples.C.Main.{main, main-Exits, answer_of}
use c_questdb_client.Base.{some, same_text}
use c_questdb_client.Examples.C.{displayed_help}
use c_questdb_client.Examples.Concat.{text}
use c_questdb_client.Tests.{formatters, good_network, environment}

-- Every configuration string parses, as one of a sender over TCP.
abbrev pub parsing : Environment
parsing = record environment {
  parse_conf_str =
      λ s. some (record { service = codes "tcp"; params = (codes "addr", codes "db:9009") ∷ [] });
}

main-Exits_example :
    Exits (answer_of formatters good_network parsing trades (codes "example" ∷ codes "db" ∷ [])) (
      main
        (library formatters good_network parsing)
        parsing.calloc
        trades
        (codes "example" ∷ codes "db" ∷ [])
        start)
unfolding displayed_help same_text text
main-Exits_example =
    main-Exits formatters good_network parsing trades (codes "example" ∷ codes "db" ∷ []) refl
      (ground arith)

main-Clean_example :
    Clean
      (Main.answer_of formatters good_network parsing trades 867992215000000000
        (codes "example" ∷ codes "db" ∷ []))
      (Main.main
        (library formatters good_network parsing)
        trades
        (codes "example" ∷ codes "db" ∷ [])
        start)
unfolding Cpp.displayed_help same_text text nanos_now
main-Clean_example =
    main-Clean formatters good_network parsing trades 867992215000000000
      (codes "example" ∷ codes "db" ∷ []) refl refl
