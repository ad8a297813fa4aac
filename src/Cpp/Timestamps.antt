-- ===== src/Cpp/Timestamps.antt =====
-- The classes `timestamp_micros` and `timestamp_nanos` of line_sender.hpp. A time point of any clock
-- and duration is a value of `A`, and `count` what `duration_cast` makes of the time since its epoch.
use c_questdb_client.Base.Int.{ℤ}
use c_questdb_client.Capi.Memory.{Cmd, pure, ◌>>=◌}
use c_questdb_client.Capi.Header.{LineSenderApi}

pub record TimestampMicros : Type 0 where
  pub ts : ℤ

pub record TimestampNanos : Type 0 where
  pub ts : ℤ

module _ {A : Type 0} where
  abbrev pub micros_of_time_point : (count : A → ℤ) → A → TimestampMicros
  micros_of_time_point count tp = record { ts = count tp }

  abbrev pub nanos_of_time_point : (count : A → ℤ) → A → TimestampNanos
  nanos_of_time_point count tp = record { ts = count tp }

module _ (api : LineSenderApi) where
  unfoldable pub micros_now : Cmd TimestampMicros
  micros_now = do ts ← api.clock.now_micros; pure (record { ts = ts })

  unfoldable pub nanos_now : Cmd TimestampNanos
  nanos_now = do ts ← api.clock.now_nanos; pure (record { ts = ts })
