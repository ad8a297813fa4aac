-- ===== src/Tests/Reached.antt =====
-- The theorems on buffers that the API can produce, and on the clock, at concrete inputs.
use c_questdb_client.Base.{◌≡◌, some, All, refl, arith}
use c_questdb_client.Base.Int.{pos}
use c_questdb_client.Error.{ok}
use c_questdb_client.Text.{Str}
use c_questdb_client.Text.Utf8.{from_utf8, IsChar}
use c_questdb_client.Timestamp.{
  TimestampNanos, nanos_from_systemtime, micros_from_systemtime, micros_of_nanos,
}
use c_questdb_client.Timestamp.SystemTime.{micros-nanos_from_systemtime}
use c_questdb_client.Buffer.Utf8.Output.{AreTyped}
use c_questdb_client.Buffer.Utf8.Reached.{IsBoundary, Reach-IsBoundary}
use c_questdb_client.Buffer.Progress.{Ready, finish, finish-Ready}
use c_questdb_client.Buffer
use c_questdb_client.Buffer.Calls.{run}
use c_questdb_client.Buffer.{with_max_name_len}
use c_questdb_client.Text.{len}
use c_questdb_client.Tests.{formatters, one_row, one_row-Reach, keyed}

one_row-AreTyped : AreTyped one_row-Reach
one_row-AreTyped = ground arith

Reach-IsBoundary_example :
    ((s : Str) × All IsChar s × (from_utf8 one_row.output ≡ some s))
    × IsBoundary formatters one_row.output one_row.marker
Reach-IsBoundary_example = Reach-IsBoundary formatters one_row-Reach one_row-AreTyped

finish-Ready_example : Ready formatters (finish keyed.state.op_case) keyed
unfolding run with_max_name_len len Buffer.permits
finish-Ready_example = finish-Ready formatters keyed (omega arith)

abbrev clock : TimestampNanos
clock = record { as_i64 = pos 867992215000000000 }

micros-nanos_from_systemtime_example :
    (clock.as_i64 ≡ pos 867992215000000000)
    × (micros_from_systemtime (pos 867992215000000000) ≡ ok (micros_of_nanos clock))
unfolding nanos_from_systemtime
micros-nanos_from_systemtime_example =
    micros-nanos_from_systemtime (pos 867992215000000000) clock refl
