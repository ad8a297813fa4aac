-- ===== src/Http.antt =====
-- questdb-rs/src/ingress/http.rs: which errors are retried, the retry loop, and the error that a
-- failed request becomes. The `ureq` request, the clock and the random numbers are parameters.
-- Times are in milliseconds.
pub mod Retry
use c_questdb_client.Base.{
  ℕ, zero, suc, ◌+◌, ◌-◌, ◌*◌, ◌^◌, ◌≡◌, ◌≤◌, ◌<◌, Bool, true, false, not, ◌||◌, ◌&&◌, Option, none,
  some, List, [], ◌∷◌, ltb, ◌==◌, if◌then◌else◌, any, min,
}
use c_questdb_client.Error.{
  Error, error, ErrorCode, http_not_supported, auth_error, server_flush_error, socket_error,
  http_failed,
}
use c_questdb_client.Text.{Bytes}

-- `ureq::Error`; the body of a response may fail to be read as text.
pub data UreqError : Type 0 where
  status : (code : ℕ) (body : Option Bytes) → UreqError
  transport : UreqError

pub data Sent : Type 0 where
  response : Sent
  failed : UreqError → Sent

-- The codes of the `match` arm that asks for a retry.
abbrev retriable_codes : List ℕ
retriable_codes = 500 ∷ 503 ∷ 504 ∷ 507 ∷ 509 ∷ 523 ∷ 524 ∷ 529 ∷ 599 ∷ []

unfoldable pub is_retriable_error : UreqError → Bool
is_retriable_error transport = true
is_retriable_error (status code body) = any (λ k. code == k) retriable_codes

-- What the loop does not decide: the answer to attempt `i`, its random number, and the time that
-- passes beside the sleep. `gen_range(-5i32..5)` is `draw i - 5`.
pub record World : Type 0 where
  pub answer : ℕ → Sent
  pub draw : ℕ → ℕ
  pub lag : ℕ → ℕ
  pub draw_range : (i : ℕ) → draw i < 10

-- `(retry_interval_ms + jitter_ms) as u64`, where a negative `i32` would become a huge number.
unfoldable pub to_sleep_ms : (interval draw : ℕ) → ℕ
to_sleep_ms interval draw =
    if ltb (interval + draw) 5 then 2 ^ 64 + (interval + draw) - 5 else interval + draw - 5

unfoldable pub next_interval : ℕ → ℕ
next_interval interval = min (interval * 2) 1000

-- How a loop ended: the answer, the attempts that it made, and the time at the end.
pub record Ended : Type 0 where
  pub result : Sent
  pub attempts : ℕ
  pub time : ℕ

abbrev pub ended : Sent → ℕ → ℕ → Ended
ended r n t = record { result = r; attempts = n; time = t }

module _ (w : World) (retry_end : ℕ) where
  -- One round of the loop behind the answer to its attempt; `again` is the next round.
  after_attempt : (i time : ℕ) → Sent → Option Ended → Option Ended
  after_attempt i time response again = some (ended response (suc i) time)
  after_attempt i time (failed e) again =
      if not (is_retriable_error e) then some (ended (failed e) (suc i) time) else again

  last_error : Sent → UreqError → UreqError
  last_error response e = e
  last_error (failed e') e = e'

  -- `retry_http_send` on fuel; `i` counts the attempts, `none` means that the fuel ran out.
  retry_loop : (fuel i interval time : ℕ) → UreqError → Option Ended
  retry_loop zero i interval time last_err = none
  retry_loop (suc fuel) i interval time last_err =
      let to_sleep = to_sleep_ms interval (w.draw i) in
      let woken = time + to_sleep + w.lag i in
      let again =
        retry_loop fuel (suc i) (next_interval interval) woken (last_error (w.answer i) last_err) in
      if ltb retry_end (time + to_sleep)
      then some (ended (failed last_err) i time)
      else after_attempt i woken (w.answer i) again

unfoldable pub retry_http_send : World → (fuel start retry_timeout : ℕ) → UreqError → Option Ended
unfolding retry_loop after_attempt last_error
retry_http_send w fuel start retry_timeout last_err =
    retry_loop w (start + retry_timeout) fuel 0 10 start last_err

first_attempt : World → (fuel start retry_timeout : ℕ) → Sent → Option Ended
first_attempt w fuel start retry_timeout response = some (ended response 0 start)
first_attempt w fuel start retry_timeout (failed e) =
    let again = retry_http_send w fuel start retry_timeout e in
    if retry_timeout == 0 || not (is_retriable_error e)
    then some (ended (failed e) 0 start)
    else again

-- The first attempt is not counted in `attempts`.
unfoldable pub http_send_with_retries :
    World → (first : Sent) (fuel start retry_timeout : ℕ) → Option Ended
unfolding first_attempt
http_send_with_retries w first fuel start retry_timeout =
    first_attempt w fuel start retry_timeout first

-- `parse_http_error`, for a status and a body; the JSON description in the message is left out.
unfoldable pub parse_http_error : ℕ → Option Bytes → Error
parse_http_error code body =
    if code == 404
    then error http_not_supported (http_failed code)
    else if code == 401 || code == 403
    then error auth_error (http_failed code)
    else elim body [
      | some msg ↦ error server_flush_error (http_failed code)
      | none ↦ error socket_error (http_failed code)
    ]
