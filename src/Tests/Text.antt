-- ===== src/Tests/Text.antt =====
-- The theorems on texts, names, retries, timestamps and error codes at concrete inputs.
use c_questdb_client.Base.{
  ◌≡◌, ◌≤◌, ◌<◌, inl, inr, true, false, not, ◌&&◌, some, [], ◌∷◌, ◌++◌, refl, codes, arith, ltb,
  ◌==◌, if◌then◌else◌,
}
use c_questdb_client.Base.Int.{negsuc, scale, IsInt64}
use c_questdb_client.Error.{err, error, invalid_timestamp, timestamp_out_of_range, is_ok, ok}
use c_questdb_client.Text.{bytes, len}
use c_questdb_client.Text.Utf8.{from_utf8, from_utf8-bytes}
use c_questdb_client.Name.TableName
use c_questdb_client.Name.TableName.{TableName, is_ok-new_table}
use c_questdb_client.Name.ColumnName
use c_questdb_client.Name.ColumnName.{ColumnName, is_ok-new_column}
use c_questdb_client.Escape.{must_escape_unquoted, must_escape_quoted, write_escaped_impl}
use c_questdb_client.Escape.InPlace.{escape, write_escaped_impl-escape}
use c_questdb_client.Escape.Scan.{
  read_escaped, ends_unquoted, ends_quoted, read-unquoted, read-quoted,
}
use c_questdb_client.Timestamp.{TimestampMicros, TimestampNanos, nanos_of_micros, micros_of_nanos}
use c_questdb_client.Timestamp.Convert.{
  micros-nanos, nanos_of_micros_range, micros_of_nanos-TowardsZero, TowardsZero, abs,
}
use c_questdb_client.Http.{World, response, failed, transport, Ended, http_send_with_retries}
use c_questdb_client.Http.Retry.{http_send_with_retries_ends}
use c_questdb_client.Http.Retry

write_escaped_impl-escape_example :
    write_escaped_impl 9 must_escape_unquoted (λ t. t) (codes "k=") (codes "a b,c")
    ≡ codes "k=" ++ escape must_escape_unquoted (codes "a b,c")
write_escaped_impl-escape_example =
    write_escaped_impl-escape 9 must_escape_unquoted (λ t. t) (codes "k=") (codes "a b,c")

read-unquoted_example :
    read_escaped ends_unquoted (escape must_escape_unquoted (codes "a b=c") ++ b',' ∷ codes "rest")
    ≡ (codes "a b=c", b',' ∷ codes "rest")
read-unquoted_example = read-unquoted (codes "a b=c") (codes "rest") b',' refl

read-quoted_example :
    read_escaped ends_quoted (escape must_escape_quoted (codes "say hi") ++ 0x22 ∷ codes " 1")
    ≡ (codes "say hi", 0x22 ∷ codes " 1")
read-quoted_example = read-quoted (codes "say hi") (codes " 1")

is_ok-new_table_example : is_ok (TableName.new (codes "a.b")) ≡ (
    ltb 0 3
    && TableName.all_table_chars (codes "a.b")
    && TableName.no_double_dot TableName.dot (codes "a.b")
    && not (3 == len (codes "a.b") && TableName.ends_with_dot (codes "a.b")))
is_ok-new_table_example = is_ok-new_table (codes "a.b")

-- A name that is refused for its last character is accepted with a character of two bytes before it.
dot_behind_wide_char :
    (is_ok (TableName.new (codes "cafe.")) ≡ false)
    × (is_ok (TableName.new (codes "caf" ++ 0xe9 ∷ codes ".")) ≡ true)
unfolding TableName.new len
dot_behind_wide_char = (refl, refl)

is_ok-new_column_example :
    is_ok (ColumnName.new (codes "a.b")) ≡ (ltb 0 3 && ColumnName.all_column_chars (codes "a.b"))
is_ok-new_column_example = is_ok-new_column (codes "a.b")

from_utf8-bytes_example :
    from_utf8 (bytes (b'a' ∷ 0xe9 ∷ 0x1_f600 ∷ [])) ≡ some (b'a' ∷ 0xe9 ∷ 0x1_f600 ∷ [])
from_utf8-bytes_example =
    from_utf8-bytes (b'a' ∷ 0xe9 ∷ 0x1_f600 ∷ [])
      (inl (ground arith), (inl (ground arith), (inr (ground arith, ground arith), tt)))

-- A server that is not reachable at two attempts, and then is.
abbrev world : World
world = record {
  answer = λ i. if ltb i 2 then failed transport else response;
  draw = λ i. 3;
  lag = λ i. 1;
  draw_range = λ i. ground arith;
}

http_send_with_retries_ends_example :
    (e : Ended) × (http_send_with_retries world (failed transport) 21 0 100 ≡ some e)
    × Retry.Delivered world (failed transport) 100 e
http_send_with_retries_ends_example =
    http_send_with_retries_ends world (failed transport) 21 0 100 (ground arith)

abbrev before_epoch : TimestampMicros
before_epoch = record { as_i64 = negsuc 4 }

abbrev before_epoch_nanos : TimestampNanos
before_epoch_nanos = record { as_i64 = negsuc 4999 }

micros-nanos_example :
    (negsuc 4999 ≡ scale (negsuc 4) 1000)
    × IsInt64 (negsuc 4999)
    × (micros_of_nanos before_epoch_nanos ≡ before_epoch)
micros-nanos_example = micros-nanos before_epoch before_epoch_nanos (unfold nanos_of_micros in refl)

nanos_of_micros_range_example :
    (abs before_epoch.as_i64 ≤ 9_223_372_036_854_775
      → nanos_of_micros (record { as_i64 = before_epoch.as_i64 })
        ≡ ok (record { as_i64 = scale before_epoch.as_i64 1000 }))
    × (9_223_372_036_854_775 < abs before_epoch.as_i64
        → nanos_of_micros (record { as_i64 = before_epoch.as_i64 })
          ≡ err (error invalid_timestamp (timestamp_out_of_range before_epoch.as_i64)))
nanos_of_micros_range_example = nanos_of_micros_range before_epoch.as_i64

micros_of_nanos-TowardsZero_example :
    TowardsZero (negsuc 1500) (micros_of_nanos (record { as_i64 = negsuc 1500 })).as_i64
    × (IsInt64 (negsuc 1500) → IsInt64 (micros_of_nanos (record { as_i64 = negsuc 1500 })).as_i64)
micros_of_nanos-TowardsZero_example = micros_of_nanos-TowardsZero (negsuc 1500)
