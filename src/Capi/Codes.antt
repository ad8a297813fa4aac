-- ===== src/Capi/Codes.antt =====
-- The error codes of include/questdb/ingress/line_sender.h, of lib.rs and of line_sender.hpp, and the
-- conversions between them: by name from the Rust library's in questdb-rs-ffi/src/lib.rs, by number
-- between lib.rs, the header and line_sender.hpp.
use c_questdb_client.Base.{List, [], ◌∷◌, zero, suc, ◌≡◌, refl, Option, none, some, ℕ}
use c_questdb_client.Error.{ErrorCode}

-- A constant's number is its place in the list.
pub data LineSenderErrorCode : Type 0 where
  could_not_resolve_addr invalid_api_call socket_error invalid_utf8 : LineSenderErrorCode
  invalid_name invalid_timestamp auth_error tls_error : LineSenderErrorCode
  http_not_supported server_flush_error config_error : LineSenderErrorCode

unfoldable pub error_code_number : LineSenderErrorCode → ℕ
error_code_number could_not_resolve_addr = 0
error_code_number invalid_api_call = 1
error_code_number socket_error = 2
error_code_number invalid_utf8 = 3
error_code_number invalid_name = 4
error_code_number invalid_timestamp = 5
error_code_number auth_error = 6
error_code_number tls_error = 7
error_code_number http_not_supported = 8
error_code_number server_flush_error = 9
error_code_number config_error = 10

abbrev pub constant : {A : Type 0} → List A → ℕ → Option A
constant [] n = none
constant (c ∷ cs) zero = some c
constant (c ∷ cs) (suc n) = constant cs n

-- The constant of the header that has a number; `none` where there is none.
unfoldable pub header_error_code : ℕ → Option LineSenderErrorCode
header_error_code n =
    constant
      (could_not_resolve_addr ∷ invalid_api_call ∷ socket_error ∷ invalid_utf8 ∷ invalid_name
        ∷ invalid_timestamp ∷ auth_error ∷ tls_error ∷ http_not_supported ∷ server_flush_error
        ∷ config_error ∷ [])
      n

-- The enumeration of lib.rs, which is `repr(C)`: what C sees is its number.
pub data FfiErrorCode : Type 0 where
  ffi_could_not_resolve_addr ffi_invalid_api_call ffi_socket_error : FfiErrorCode
  ffi_invalid_utf8 ffi_invalid_name ffi_invalid_timestamp : FfiErrorCode
  ffi_auth_error ffi_tls_error ffi_http_not_supported : FfiErrorCode
  ffi_server_flush_error ffi_config_error : FfiErrorCode

unfoldable pub ffi_error_number : FfiErrorCode → ℕ
ffi_error_number ffi_could_not_resolve_addr = 0
ffi_error_number ffi_invalid_api_call = 1
ffi_error_number ffi_socket_error = 2
ffi_error_number ffi_invalid_utf8 = 3
ffi_error_number ffi_invalid_name = 4
ffi_error_number ffi_invalid_timestamp = 5
ffi_error_number ffi_auth_error = 6
ffi_error_number ffi_tls_error = 7
ffi_error_number ffi_http_not_supported = 8
ffi_error_number ffi_server_flush_error = 9
ffi_error_number ffi_config_error = 10

-- `From<ErrorCode> for line_sender_error_code`
unfoldable pub of_error_code : ErrorCode → FfiErrorCode
of_error_code ErrorCode.could_not_resolve_addr = ffi_could_not_resolve_addr
of_error_code ErrorCode.invalid_api_call = ffi_invalid_api_call
of_error_code ErrorCode.socket_error = ffi_socket_error
of_error_code ErrorCode.invalid_utf8 = ffi_invalid_utf8
of_error_code ErrorCode.invalid_name = ffi_invalid_name
of_error_code ErrorCode.invalid_timestamp = ffi_invalid_timestamp
of_error_code ErrorCode.auth_error = ffi_auth_error
of_error_code ErrorCode.tls_error = ffi_tls_error
of_error_code ErrorCode.http_not_supported = ffi_http_not_supported
of_error_code ErrorCode.server_flush_error = ffi_server_flush_error
of_error_code ErrorCode.config_error = ffi_config_error

-- `enum class line_sender_error_code` of line_sender.hpp
pub data CppErrorCode : Type 0 where
  cpp_could_not_resolve_addr cpp_invalid_api_call cpp_socket_error cpp_invalid_utf8 : CppErrorCode
  cpp_invalid_name cpp_invalid_timestamp cpp_auth_error cpp_tls_error : CppErrorCode
  cpp_http_not_supported cpp_server_flush_error cpp_config_error : CppErrorCode

-- `static_cast<line_sender_error_code>(n)`; `none` for a number that no constant has.
unfoldable pub cpp_error_code : ℕ → Option CppErrorCode
cpp_error_code n =
    constant
      (cpp_could_not_resolve_addr ∷ cpp_invalid_api_call ∷ cpp_socket_error ∷ cpp_invalid_utf8
        ∷ cpp_invalid_name ∷ cpp_invalid_timestamp ∷ cpp_auth_error ∷ cpp_tls_error
        ∷ cpp_http_not_supported ∷ cpp_server_flush_error ∷ cpp_config_error ∷ [])
      n

-- The C++ constant of the same name as a Rust error code.
abbrev pub same_name : ErrorCode → CppErrorCode
same_name ErrorCode.could_not_resolve_addr = cpp_could_not_resolve_addr
same_name ErrorCode.invalid_api_call = cpp_invalid_api_call
same_name ErrorCode.socket_error = cpp_socket_error
same_name ErrorCode.invalid_utf8 = cpp_invalid_utf8
same_name ErrorCode.invalid_name = cpp_invalid_name
same_name ErrorCode.invalid_timestamp = cpp_invalid_timestamp
same_name ErrorCode.auth_error = cpp_auth_error
same_name ErrorCode.tls_error = cpp_tls_error
same_name ErrorCode.http_not_supported = cpp_http_not_supported
same_name ErrorCode.server_flush_error = cpp_server_flush_error
same_name ErrorCode.config_error = cpp_config_error

-- The header's constant of the same name as a Rust error code.
abbrev pub named_in_header : ErrorCode → LineSenderErrorCode
named_in_header ErrorCode.could_not_resolve_addr = could_not_resolve_addr
named_in_header ErrorCode.invalid_api_call = invalid_api_call
named_in_header ErrorCode.socket_error = socket_error
named_in_header ErrorCode.invalid_utf8 = invalid_utf8
named_in_header ErrorCode.invalid_name = invalid_name
named_in_header ErrorCode.invalid_timestamp = invalid_timestamp
named_in_header ErrorCode.auth_error = auth_error
named_in_header ErrorCode.tls_error = tls_error
named_in_header ErrorCode.http_not_supported = http_not_supported
named_in_header ErrorCode.server_flush_error = server_flush_error
named_in_header ErrorCode.config_error = config_error

-- The number that the library gives to C for a Rust error is that of the header's constant of the
-- same name, and the number of that constant, cast to C++, is the C++ constant of the same name: the
-- three enumerations list their constants in one order.
pub cpp_error_code-same_name :
    (e : ErrorCode)
    → (header_error_code (ffi_error_number (of_error_code e)) ≡ some (named_in_header e))
      × (cpp_error_code (error_code_number (named_in_header e)) ≡ some (same_name e))
unfolding cpp_error_code error_code_number of_error_code header_error_code ffi_error_number
cpp_error_code-same_name ErrorCode.could_not_resolve_addr = (refl, refl)
cpp_error_code-same_name ErrorCode.invalid_api_call = (refl, refl)
cpp_error_code-same_name ErrorCode.socket_error = (refl, refl)
cpp_error_code-same_name ErrorCode.invalid_utf8 = (refl, refl)
cpp_error_code-same_name ErrorCode.invalid_name = (refl, refl)
cpp_error_code-same_name ErrorCode.invalid_timestamp = (refl, refl)
cpp_error_code-same_name ErrorCode.auth_error = (refl, refl)
cpp_error_code-same_name ErrorCode.tls_error = (refl, refl)
cpp_error_code-same_name ErrorCode.http_not_supported = (refl, refl)
cpp_error_code-same_name ErrorCode.server_flush_error = (refl, refl)
cpp_error_code-same_name ErrorCode.config_error = (refl, refl)
