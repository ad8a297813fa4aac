-- ===== src/Timestamp.antt =====
-- questdb-rs/src/ingress/timestamp.rs: timestamps and their conversions. An `i64` is a ℤ; a product
-- that does not fit makes `checked_mul` return `none`.
pub mod Convert
pub mod SystemTime
use c_questdb_client.Base.{ℕ, suc, ◌/◌, Option, none, some, if◌then◌else◌, ◌<◌}
use c_questdb_client.Base.Int.{ℤ, pos, negsuc, neg, is_int64, scale, div_trunc}
use c_questdb_client.Error.{
  Result, ◌>>=◌, system_time_out_of_range, ok, err, error, invalid_timestamp,
  timestamp_out_of_range,
}

pub record TimestampMicros : Type 0 where
  pub as_i64 : ℤ

pub record TimestampNanos : Type 0 where
  pub as_i64 : ℤ

pub data Timestamp : Type 0 where
  micros : TimestampMicros → Timestamp
  nanos : TimestampNanos → Timestamp

-- `i64::checked_mul` by a positive constant
checked_mul : ℤ → ℕ → Option ℤ
checked_mul a k = if is_int64 (scale a k) then some (scale a k) else none

-- `TryFrom<TimestampMicros> for TimestampNanos`
unfoldable pub nanos_of_micros : TimestampMicros → Result TimestampNanos
unfolding checked_mul
nanos_of_micros ts = elim (checked_mul ts.as_i64 1000) [
  | some n ↦ ok (record { as_i64 = n })
  | none ↦ err (error invalid_timestamp (timestamp_out_of_range ts.as_i64))
]

-- `From<TimestampNanos> for TimestampMicros`
unfoldable pub micros_of_nanos : TimestampNanos → TimestampMicros
micros_of_nanos ts = record { as_i64 = div_trunc ts.as_i64 1000 }

-- `TryFrom<Timestamp> for TimestampMicros`
unfoldable pub to_micros : Timestamp → Result TimestampMicros
unfolding micros_of_nanos
to_micros (micros ts) = ok ts
to_micros (nanos ts) = ok (micros_of_nanos ts)

-- `TryFrom<Timestamp> for TimestampNanos`
unfoldable pub to_nanos : Timestamp → Result TimestampNanos
unfolding nanos_of_micros
to_nanos (micros ts) = nanos_of_micros ts
to_nanos (nanos ts) = ok ts

-- A `SystemTime` is its nanoseconds from the UNIX epoch, which for those before it are negative.
abbrev pub SystemTime : Type 0
SystemTime = ℤ

-- `Duration::as_nanos` and `Duration::as_micros`; the result fits into 128 bits.
abbrev pub as_nanos : ℕ → ℕ
as_nanos d = d

abbrev pub as_micros : ℕ → ℕ
as_micros d = d / 1000

unfoldable pub sys_time_to_duration : SystemTime → (ℕ → ℕ) → ℤ
sys_time_to_duration (pos d) extract_fn = pos (extract_fn d)
sys_time_to_duration (negsuc d) extract_fn = neg (extract_fn (suc d))

unfoldable pub sys_time_convert : SystemTime → (ℕ → ℕ) → Result ℤ
unfolding sys_time_to_duration
sys_time_convert time extract_fn =
    let number = sys_time_to_duration time extract_fn in
    if is_int64 number
    then ok number
    else err (error invalid_timestamp (system_time_out_of_range time))

unfoldable pub micros_from_systemtime : SystemTime → Result TimestampMicros
unfolding sys_time_convert
micros_from_systemtime time = do n ← sys_time_convert time as_micros; ok (record { as_i64 = n })

unfoldable pub nanos_from_systemtime : SystemTime → Result TimestampNanos
unfolding sys_time_convert
nanos_from_systemtime time = do n ← sys_time_convert time as_nanos; ok (record { as_i64 = n })

-- `expect`: `none` is a panic.
abbrev expected : {A : Type 0} → Result A → Option A
expected (ok a) = some a
expected (err e) = none

-- `now`, at the time of the system's clock
unfoldable pub micros_now : SystemTime → Option TimestampMicros
unfolding micros_from_systemtime
micros_now time = expected (micros_from_systemtime time)

unfoldable pub nanos_now : SystemTime → Option TimestampNanos
unfolding nanos_from_systemtime
nanos_now time = expected (nanos_from_systemtime time)
