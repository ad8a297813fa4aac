-- ===== src/Timestamp/Convert.antt =====
-- The conversions between microseconds and nanoseconds.
use c_questdb_client.Base.{ℕ, ◌≡◌, ◌<◌, ◌≤◌, ◌*◌, ◌+◌, suc, refl, arith, Bool-cases, inl, inr, ltb}
use c_questdb_client.Base.Int.{ℤ, pos, negsuc, IsInt64, scale, div_trunc}
use c_questdb_client.Error.{ok, err, error, invalid_timestamp, timestamp_out_of_range}
use c_questdb_client.Timestamp.{TimestampMicros, TimestampNanos, nanos_of_micros, micros_of_nanos}

-- The distance from zero.
abbrev pub abs : ℤ → ℕ
abs (pos n) = n
abs (negsuc n) = suc n

div-scale : (a : ℤ) → div_trunc (scale a 1000) 1000 ≡ a
div-scale (pos n) = ground arith
div-scale (negsuc n) = ground arith

nanos_of_micros_at :
    (a b : ℤ)
    → nanos_of_micros (record { as_i64 = a }) ≡ ok (record { as_i64 = b })
    → (b ≡ scale a 1000) × IsInt64 b
unfolding nanos_of_micros
nanos_of_micros_at (pos a) b h = ground arith
nanos_of_micros_at (negsuc a) b h = ground arith

-- A conversion to nanoseconds that succeeds is exact, fits into 64 bits, and is undone by the
-- conversion back.
pub micros-nanos :
    (m : TimestampMicros) (n : TimestampNanos)
    → nanos_of_micros m ≡ ok n
    → (n.as_i64 ≡ scale m.as_i64 1000) × IsInt64 n.as_i64 × (micros_of_nanos n ≡ m)
unfolding micros_of_nanos
micros-nanos m n h =
    let (exact, fits) = nanos_of_micros_at m.as_i64 n.as_i64 h in
    (exact, fits, rw exact (rw div-scale refl))

-- The conversion to nanoseconds succeeds, with a thousand times the number, up to a distance of
-- 9223372036854775 microseconds from the epoch on either side of it, and fails with
-- `InvalidTimestamp`, which names the number, for any that is further away.
pub nanos_of_micros_range :
    (a : ℤ)
    → (abs a ≤ 9_223_372_036_854_775
        → nanos_of_micros (record { as_i64 = a }) ≡ ok (record { as_i64 = scale a 1000 }))
      × (9_223_372_036_854_775 < abs a
          → nanos_of_micros (record { as_i64 = a })
            ≡ err (error invalid_timestamp (timestamp_out_of_range a)))
unfolding nanos_of_micros
nanos_of_micros_range (pos n) = (λ h. ground arith, λ h. ground arith)
nanos_of_micros_range (negsuc n) = (λ h. ground arith, λ h. ground arith)

-- The number of whole microseconds in a number of nanoseconds, counted from zero on either side.
abbrev pub TowardsZero : ℤ → ℤ → Type 0
TowardsZero (pos n) (pos q) = (q * 1000 ≤ n) × (n < q * 1000 + 1000)
TowardsZero (pos n) (negsuc q) = ⊥
TowardsZero (negsuc n) (pos q) = (q ≡ 0) × (suc n < 1000)
TowardsZero (negsuc n) (negsuc q) = (suc q * 1000 ≤ suc n) × (suc n < suc q * 1000 + 1000)

-- The conversion to microseconds keeps the sign, loses less than a microsecond, towards zero, and
-- never leaves 64 bits.
pub micros_of_nanos-TowardsZero :
    (a : ℤ)
    → TowardsZero a (micros_of_nanos (record { as_i64 = a })).as_i64
      × (IsInt64 a → IsInt64 (micros_of_nanos (record { as_i64 = a })).as_i64)
unfolding micros_of_nanos
micros_of_nanos-TowardsZero (pos n) = ground arith
micros_of_nanos-TowardsZero (negsuc n) = elim (Bool-cases (ltb (suc n) 1000)) [
  | inl small ↦ rw small ((refl, ground arith), λ h. ground arith)
  | inr large ↦ rw large ((ground arith, ground arith), λ h. ground arith)
]
