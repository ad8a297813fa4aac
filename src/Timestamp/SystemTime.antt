-- ===== src/Timestamp/SystemTime.antt =====
-- Timestamps from a `SystemTime`.
use c_questdb_client.Base.{◌≡◌, arith}
use c_questdb_client.Base.Int.{pos, negsuc}
use c_questdb_client.Error.{ok}
use c_questdb_client.Timestamp.{
  TimestampNanos, SystemTime, micros_from_systemtime, nanos_from_systemtime, micros_of_nanos,
}

-- A time that nanoseconds can hold is exact in them, and is the same in microseconds whether it is
-- taken from the system time or converted from the nanoseconds.
pub micros-nanos_from_systemtime :
    (time : SystemTime) (n : TimestampNanos)
    → nanos_from_systemtime time ≡ ok n
    → (n.as_i64 ≡ time) × (micros_from_systemtime time ≡ ok (micros_of_nanos n))
unfolding nanos_from_systemtime micros_from_systemtime micros_of_nanos
micros-nanos_from_systemtime (pos d) n h = ground arith
micros-nanos_from_systemtime (negsuc d) n h = ground arith
