-- ===== src/Error.antt =====
-- questdb-rs/src/error.rs: error codes, errors and results. The text of a message is not modelled:
-- a `Message` has one constructor for each `error::fmt!` of the modelled code, with its arguments.
use c_questdb_client.Base.{◌⊎◌, inl, inr, refl, ◌≡◌, ℕ, List, Bool, true, false}
use c_questdb_client.Base.Int.{ℤ}
use c_questdb_client.Op.{Op, OpCase}

pub data ErrorCode : Type 0 where
  could_not_resolve_addr invalid_api_call socket_error invalid_utf8 invalid_name : ErrorCode
  invalid_timestamp auth_error tls_error http_not_supported server_flush_error : ErrorCode
  config_error : ErrorCode

pub data Message : Type 0 where
  table_name_empty column_name_empty : Message
  invalid_dot : (name : List ℕ) (position : ℕ) → Message
  table_name_char column_name_char : (name : List ℕ) (c position : ℕ) → Message
  table_name_bom column_name_bom : (name : List ℕ) (position : ℕ) → Message
  name_too_long : (name : List ℕ) (max : ℕ) → Message
  bad_call : Op → OpCase → Message
  marker_in_line no_marker : Message
  negative_timestamp timestamp_out_of_range system_time_out_of_range : ℤ → Message
  not_connected : Message
  buffer_too_big : (size max : ℕ) → Message
  transactional_tcp transactional_tables : Message
  flush_failed : Message
  sender_closed : Message
  bad_utf8 : (buf : List ℕ) → Message
  http_failed : (status : ℕ) → Message
  already_specified tcp_only http_only tls_unsupported : (setting : List ℕ) → Message
  bad_conf_char : (c position : ℕ) → Message
  buf_size_too_small zero_request_timeout no_root_file : Message
  interface_over_http newline_in_token ecdsa_for_http no_conf_variable no_addr : Message
  bad_conf_string bad_tls_verify : Message
  unsupported_protocol unsupported_param bad_number bad_tls_ca bad_auto_flush :
      (text : List ℕ) → Message
  connect_failed : Message
  bad_key_id undecodable_key : (text : List ℕ) → Message
  key_x_too_long key_y_too_long key_rejected no_challenge sign_failed : Message
  io_failed : Message
  incomplete_challenge : (buf : List ℕ) → Message
  basic_auth_over_tcp token_auth_over_tcp incomplete_ecdsa : Message
  no_password no_username ecdsa_over_http inconsistent_http_auth incomplete_auth : Message

pub record Error : Type 0 where
  pub code : ErrorCode
  pub msg : Message

abbrev pub error : ErrorCode → Message → Error
error c m = record { code = c; msg = m }

pub data Result {ℓ} (A : Type ℓ) : Type ℓ where
  ok : A → Result A
  err : Error → Result A

abbrev pub is_ok {ℓ} : {A : Type ℓ} → Result A → Bool
is_ok (ok a) = true
is_ok (err e) = false

-- A value with `?`, and what is made of it.
module _ {A B : Type 0} where
  infixl 5 ◌>>=◌
  abbrev pub ◌>>=◌ : (value : Result A) → (rest : A → Result B) → Result B
  ok a >>= rest = rest a
  err found >>= rest = err found

-- A check with `?`, and what follows it.
infixl 5 ◌>>◌
abbrev pub ◌>>◌ {ℓ} : {B : Type ℓ} → (check : Result (Unit {0})) → (rest : Result B) → Result B
ok done >> rest = rest
err found >> rest = err found

-- To split on a result and keep the equation.
pub Result-cases {ℓ} :
    {A : Type ℓ} (r : Result A) → ((a : A) × (r ≡ ok a)) ⊎ ((e : Error) × (r ≡ err e))
Result-cases (ok a) = inl (a, refl)
Result-cases (err e) = inr (e, refl)
