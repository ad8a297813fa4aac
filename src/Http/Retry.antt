-- ===== src/Http/Retry.antt =====
-- The retry loop ends, in time, with the answer of its last attempt.
use c_questdb_client.Base.{
  ◌⊎◌, sym, ◌∙◌, ◌==◌, not, ◌||◌, ℕ, zero, suc, ◌+◌, ◌-◌, ◌*◌, ◌≡◌, ◌≤◌, ◌<◌, refl, true, some,
  arith, inl, inr, Bool-cases, ltb,
}
use native.Mathlib.Decide.{ℕ_discrete}
use c_questdb_client.Http.{
  ended, World, UreqError, Sent, response, failed, Ended, is_retriable_error, to_sleep_ms,
  next_interval, retry_loop, after_attempt, last_error, retry_http_send, http_send_with_retries,
}

-- The sleep stays within five milliseconds of the interval: the cast never sees a negative number.
Sent-cases : (r : Sent) → (r ≡ response) ⊎ ((e : UreqError) × (r ≡ failed e))
Sent-cases response = inl refl
Sent-cases (failed e) = inr (e, refl)

suc-sub-one : (n : ℕ) → suc n - 1 ≡ n
suc-sub-one n = omega arith

to_sleep_ms_bounds :
    (interval draw : ℕ)
    → 10 ≤ interval
    → draw < 10
    → (interval ≤ to_sleep_ms interval draw + 5) × (to_sleep_ms interval draw < interval + 5)
unfolding to_sleep_ms
to_sleep_ms_bounds interval draw h k = ground arith

next_interval_bounds :
    (interval : ℕ)
    → 10 ≤ interval
    → interval ≤ 1000
    → (10 ≤ next_interval interval) × (next_interval interval ≤ 1000)
unfolding next_interval
next_interval_bounds interval h k = omega arith

abbrev pub Retriable : Sent → Type 0
Retriable response = ⊥
Retriable (failed e) = is_retriable_error e ≡ true

-- What is promised of a run of the loop from attempt `i` at `time`: how many attempts it makes, that
-- each but the last failed in a way that is retried, and whose answer it returns.
pub record Promise (w : World) (retry_end i time : ℕ) (last_err : UreqError) (e : Ended)
    : Type 0 where
  pub few : 5 * e.attempts ≤ 5 * i + (retry_end - time)
  pub retried : (j : ℕ) → i ≤ j → suc j < e.attempts → Retriable (w.answer j)
  pub last :
      ((e.attempts ≡ i) × (e.result ≡ failed last_err))
      ⊎ ((i < e.attempts) × (e.result ≡ w.answer (e.attempts - 1)))

module _ (w : World) (retry_end : ℕ) where
  stopped :
      (i time : ℕ) (last_err : UreqError)
      → Promise w retry_end i time last_err (ended (failed last_err) i time)
  stopped i time last_err = record {
    few = omega arith;
    retried = λ j le lt. absurd (omega arith);
    last = inl (refl, refl);
  }

  answered :
      (i time woken : ℕ) (last_err : UreqError) (r : Sent)
      → 5 ≤ retry_end - time
      → w.answer i ≡ r
      → Promise w retry_end i time last_err (ended r (suc i) woken)
  answered i time woken last_err r room is = record {
    few = omega arith;
    retried = λ j le lt. absurd (omega arith);
    last = inr (omega arith, rw suc-sub-one (sym is));
  }

  continued :
      (i time woken : ℕ) (last_err e : UreqError) (out : Ended)
      → time + 5 ≤ woken
      → 5 ≤ retry_end - time
      → w.answer i ≡ failed e
      → is_retriable_error e ≡ true
      → Promise w retry_end (suc i) woken e out
      → Promise w retry_end i time last_err out
  continued i time woken last_err e out later room is again p = record {
    few = omega (arith, p.few);
    retried = λ j le lt. elim (ℕ_discrete j i) [
      | yes here ↦ rw (here, is) again
      | no there ↦ p.retried j (omega arith) lt
    ];
    last = elim p.last [
      | inl (stop, r) ↦ inr (omega arith, rw (stop, suc-sub-one) (r ∙ sym is))
      | inr (more, r) ↦ inr (omega arith, r)
    ];
  }

  retry_loop_ends :
      (fuel i interval time : ℕ) (last_err : UreqError)
      → 10 ≤ interval
      → interval ≤ 1000
      → retry_end - time < 5 * fuel
      → (e : Ended) × (retry_loop w retry_end fuel i interval time last_err ≡ some e)
        × Promise w retry_end i time last_err e
  unfolding retry_loop after_attempt last_error
  retry_loop_ends zero i interval time last_err lo hi h = absurd (omega arith)
  retry_loop_ends (suc fuel) i interval time last_err lo hi h =
      let pause = to_sleep_ms interval (w.draw i) in
      let (longest, shortest) = to_sleep_ms_bounds interval (w.draw i) lo (w.draw_range i) in
      let (lo', hi') = next_interval_bounds interval lo hi in
      elim (Bool-cases (ltb retry_end (time + pause))) [
        | inl late ↦ (ended (failed last_err) i time, rw late, stopped i time last_err)
        | inr early ↦
            let fits : time + pause ≤ retry_end = ground arith in
            elim (Sent-cases (w.answer i)) [
              | inl is ↦ (
                ended response (suc i) (time + pause + w.lag i),
                rw (early, is),
                answered i time _ last_err response (omega arith) is,
              )
              | inr (e, is) ↦ elim (Bool-cases (is_retriable_error e)) [
                | inl again ↦
                    let (out, eq, p) =
                      retry_loop_ends fuel (suc i) (next_interval interval) (time + pause + w.lag i)
                        e lo' hi' (omega arith) in
                    (
                      out,
                      rw (early, is, again) eq,
                      continued i time (time + pause + w.lag i) last_err e out (omega arith)
                          (omega arith) is again p,
                    )
                | inr final ↦ (
                  ended (failed e) (suc i) (time + pause + w.lag i),
                  rw (early, is, final),
                  answered i time _ last_err (failed e) (omega arith) is,
                )
              ]
            ]
      ]

-- The promise of a whole request: no more retries than fit into the timeout at five milliseconds
-- each, a retry only behind an error that is retried, and the last answer as the result.
abbrev pub Delivered : World → Sent → ℕ → Ended → Type 0
Delivered w first timeout e =
    (5 * e.attempts ≤ timeout)
    × ((j : ℕ) → suc j < e.attempts → Retriable (w.answer j))
    × (((e.attempts ≡ 0) × (e.result ≡ first))
        ⊎ ((0 < e.attempts) × Retriable first × (e.result ≡ w.answer (e.attempts - 1))))

at_once :
    (w : World) (first : Sent) (timeout start : ℕ) → Delivered w first timeout (ended first 0 start)
at_once w first timeout start = (omega arith, λ j lt. absurd (omega arith), inl (refl, refl))

-- With fuel for one round per five milliseconds a request ends, and keeps the promise.
pub http_send_with_retries_ends :
    (w : World) (first : Sent) (fuel start timeout : ℕ)
    → timeout < 5 * fuel
    → (e : Ended) × (http_send_with_retries w first fuel start timeout ≡ some e)
      × Delivered w first timeout e
unfolding http_send_with_retries retry_http_send
http_send_with_retries_ends w response fuel start timeout h =
    (ended response 0 start, refl, at_once w response timeout start)
http_send_with_retries_ends w (failed e) fuel start timeout h =
    elim (Bool-cases (timeout == 0 || not (is_retriable_error e))) [
      | inl never ↦ (ended (failed e) 0 start, rw never, at_once w (failed e) timeout start)
      | inr retry ↦
          let (out, eq, p) =
            retry_loop_ends w (start + timeout) fuel 0 10 start e (omega arith) (omega arith)
              (omega arith) in
          (
            out,
            rw retry eq,
            (
              omega (arith, p.few),
              λ j lt. p.retried j (omega arith) lt,
              elim p.last [ inl stop ↦ inl stop | inr (more, r) ↦ inr (more, ground arith, r) ],
            ),
          )
    ]
