-- ===== src/Tests/Links.antt =====
-- The theorems on the handshake and on the server of the C++ tests at concrete inputs.
use c_questdb_client.Base.{
  ◌≡◌, ◌%◌, ◌^◌, ◌∷◌, [], ◌++◌, List, some, codes, arith, refl, true, length, map,
}
use c_questdb_client.Text.{Bytes}
use c_questdb_client.Connection.{
  Crates, EcdsaAuthParams, Connection, authenticate, parse_public_key,
}
use c_questdb_client.Connection.Authenticate.{OneLine}
use c_questdb_client.Connection.Keys.{IsPublicKey, parse_public_key-IsPublicKey}
use c_questdb_client.Connection.Handshake.{Handshake, authenticate-Handshake}
use c_questdb_client.MockServer
use c_questdb_client.MockServer.{MockServer, recv, complete}
use c_questdb_client.MockServer.Lines.{recv-row_count, concat}
use c_questdb_client.Tests.{formatters, one_row, one_row-Reach, one_row_output}

encoded-OneLine : OneLine (codes "c2ln")
encoded-OneLine = ground arith

-- Keys that decode to themselves, and a signature that is the challenge.
abbrev crates : Crates (Bytes × Bytes)
crates = record {
  decode_vec = λ s. some s;
  encode_string = λ s. codes "c2ln";
  encode_bytes = λ s. encoded-OneLine;
  key_pair = λ v w. some (v, w);
  sign = λ pair challenge. some challenge;
}

abbrev auth : EcdsaAuthParams
auth = record {
  key_id = codes "admin";
  priv_key = codes "key";
  pub_key_x = codes "x";
  pub_key_y = codes "y";
}

parse_public_key-IsPublicKey_example :
    IsPublicKey crates (codes "x") (codes "y") (parse_public_key crates (codes "x") (codes "y"))
parse_public_key-IsPublicKey_example = parse_public_key-IsPublicKey crates (codes "x") (codes "y")

abbrev fresh : Connection
fresh = record { room = 64; sent = [] }

authenticate-Handshake_example :
    Handshake crates
      (map some (codes "nonce\n"))
      auth
      fresh
      (authenticate crates (map some (codes "nonce\n")) auth fresh)
authenticate-Handshake_example =
    authenticate-Handshake crates (map some (codes "nonce\n")) auth fresh

recv-row_count_example :
    (msgs : List Bytes) × (recv true
        (some (codes "trades,sym\\ ") ∷ some (codes "col=a\\,b\n") ∷ [])
        (record { msgs = [] })
      ≡ complete (length msgs, record { msgs = [] ++ msgs }))
    × (concat msgs ≡ one_row.output)
    × (one_row.state.row_count ≡ length msgs % 2 ^ 64)
unfolding MockServer.accumulate
recv-row_count_example =
    recv-row_count formatters one_row-Reach
      (some (codes "trades,sym\\ ") ∷ some (codes "col=a\\,b\n") ∷ []) (record { msgs = [] }) b't'
      (codes "rades,sym\\ col=a\\,b\n") one_row_output (ground arith) (ground arith)
      (rw one_row_output refl)
