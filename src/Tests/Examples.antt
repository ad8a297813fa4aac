-- ===== src/Tests/Examples.antt =====
-- The theorems on the programs in examples/ at concrete inputs.
use c_questdb_client.Base.{◌≡◌, ◌++◌, ◌∷◌, [], true, false, some, none, if◌then◌else◌, codes, arith}
use c_questdb_client.Error.{is_ok}
use c_questdb_client.Sender.{Sender, ProtocolHandler, flush_impl}
use c_questdb_client.Capi.Ffi.Library.{library}
use c_questdb_client.Examples.Concat.{concat_, joined, concat_-joined, text}
use c_questdb_client.Examples.C.{with_sender}
use c_questdb_client.Examples.C.Row.{trades, table_of, filled}
use c_questdb_client.Examples.C.Left.{Left, connected, with_sender-Left}
use c_questdb_client.Tests.{formatters, good_network, environment}

concat_-joined_example :
    concat_ (λ n. true) (codes "tcp::addr=") (codes "localhost" ∷ codes ":" ∷ []) ≡ (
      if true
      then some (some (joined (codes "tcp::addr=") (codes "localhost" ∷ codes ":" ∷ []) ++ 0 ∷ []))
      else none)
unfolding text
concat_-joined_example =
    concat_-joined (λ n. true) (codes "tcp::addr=") (codes "localhost" ∷ codes ":" ∷ [])
      (ground arith)

abbrev sender : Sender
sender = record { handler = ProtocolHandler.socket; connected = true; max_buf_size = 4096 }

with_sender-Left_example :
    Left (is_ok (flush_impl good_network sender (filled formatters trades) false).result) (
      with_sender
        (library formatters good_network environment)
        (table_of trades)
        1
        2
        (connected (codes "tcp::addr=localhost:9009;") sender))
with_sender-Left_example =
    with_sender-Left formatters good_network environment trades (codes "tcp::addr=localhost:9009;")
      sender
