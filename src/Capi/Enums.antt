-- ===== src/Capi/Enums.antt =====
-- `line_sender_protocol` and `line_sender_ca` of include/questdb/ingress/line_sender.h, `protocol` and
-- `ca` of line_sender.hpp, those of questdb-rs-ffi/src/lib.rs, and the conversions: by number from C++
-- to C and from C to lib.rs, by name from there to the enumerations of the Rust library.
use c_questdb_client.Base.{ℕ, ◌≡◌, refl, Option, some, [], ◌∷◌}
use c_questdb_client.Capi.Codes.{constant}
use c_questdb_client.Builder.{Protocol, CertificateAuthority}
use c_questdb_client.Builder

-- A constant's number is its place in the list.
pub data LineSenderProtocol : Type 0 where
  c_tcp c_tcps c_http c_https : LineSenderProtocol

pub data LineSenderCa : Type 0 where
  c_webpki_roots c_os_roots c_webpki_and_os_roots c_pem_file : LineSenderCa

unfoldable pub c_protocol_number : LineSenderProtocol → ℕ
c_protocol_number c_tcp = 0
c_protocol_number c_tcps = 1
c_protocol_number c_http = 2
c_protocol_number c_https = 3

unfoldable pub c_ca_number : LineSenderCa → ℕ
c_ca_number c_webpki_roots = 0
c_ca_number c_os_roots = 1
c_ca_number c_webpki_and_os_roots = 2
c_ca_number c_pem_file = 3

-- The enumerations of lib.rs, which are `repr(C)`: C passes a number.
pub data FfiProtocol : Type 0 where
  ffi_tcp ffi_tcps ffi_http ffi_https : FfiProtocol

pub data FfiCa : Type 0 where
  ffi_webpki_roots ffi_os_roots ffi_webpki_and_os_roots ffi_pem_file : FfiCa

unfoldable pub ffi_protocol : ℕ → Option FfiProtocol
ffi_protocol n = constant (ffi_tcp ∷ ffi_tcps ∷ ffi_http ∷ ffi_https ∷ []) n

unfoldable pub ffi_ca : ℕ → Option FfiCa
ffi_ca n =
    constant (ffi_webpki_roots ∷ ffi_os_roots ∷ ffi_webpki_and_os_roots ∷ ffi_pem_file ∷ []) n

-- `From<line_sender_protocol> for Protocol`
unfoldable pub to_protocol : FfiProtocol → Protocol
to_protocol ffi_tcp = Builder.tcp
to_protocol ffi_tcps = Builder.tcps
to_protocol ffi_http = Builder.http
to_protocol ffi_https = Builder.https

-- `From<line_sender_ca> for CertificateAuthority`
unfoldable pub to_ca : FfiCa → CertificateAuthority
to_ca ffi_webpki_roots = Builder.webpki_roots
to_ca ffi_os_roots = Builder.os_roots
to_ca ffi_webpki_and_os_roots = Builder.webpki_and_os_roots
to_ca ffi_pem_file = Builder.pem_file

-- `enum class protocol` and `enum class ca` of line_sender.hpp
pub data CppProtocol : Type 0 where
  cpp_tcp cpp_tcps cpp_http cpp_https : CppProtocol

pub data CppCa : Type 0 where
  cpp_webpki_roots cpp_os_roots cpp_webpki_and_os_roots cpp_pem_file : CppCa

cpp_protocol_number : CppProtocol → ℕ
cpp_protocol_number cpp_tcp = 0
cpp_protocol_number cpp_tcps = 1
cpp_protocol_number cpp_http = 2
cpp_protocol_number cpp_https = 3

cpp_ca_number : CppCa → ℕ
cpp_ca_number cpp_webpki_roots = 0
cpp_ca_number cpp_os_roots = 1
cpp_ca_number cpp_webpki_and_os_roots = 2
cpp_ca_number cpp_pem_file = 3

-- `static_cast<::line_sender_protocol>` and `static_cast<::line_sender_ca>`
unfoldable pub c_protocol : CppProtocol → Option LineSenderProtocol
unfolding cpp_protocol_number
c_protocol p = constant (c_tcp ∷ c_tcps ∷ c_http ∷ c_https ∷ []) (cpp_protocol_number p)

unfoldable pub c_ca : CppCa → Option LineSenderCa
unfolding cpp_ca_number
c_ca a =
    constant (c_webpki_roots ∷ c_os_roots ∷ c_webpki_and_os_roots ∷ c_pem_file ∷ [])
      (cpp_ca_number a)

-- The Rust constants of the same names as those of C++ and of C.
abbrev pub protocol_named : CppProtocol → Protocol
protocol_named cpp_tcp = Builder.tcp
protocol_named cpp_tcps = Builder.tcps
protocol_named cpp_http = Builder.http
protocol_named cpp_https = Builder.https

abbrev pub ca_named : CppCa → CertificateAuthority
ca_named cpp_webpki_roots = Builder.webpki_roots
ca_named cpp_os_roots = Builder.os_roots
ca_named cpp_webpki_and_os_roots = Builder.webpki_and_os_roots
ca_named cpp_pem_file = Builder.pem_file

abbrev pub ca_of : LineSenderCa → CertificateAuthority
ca_of c_webpki_roots = Builder.webpki_roots
ca_of c_os_roots = Builder.os_roots
ca_of c_webpki_and_os_roots = Builder.webpki_and_os_roots
ca_of c_pem_file = Builder.pem_file

-- A protocol of C++, cast to the header's enumeration by its number, read by the library as its own
-- enumeration by the number again, and converted there, is the constant of the same name; and a
-- certificate authority alike, also one that a C program passes.
pub to_protocol-c_protocol :
    ((p : CppProtocol)
      → (q : LineSenderProtocol) × (r : FfiProtocol) × (c_protocol p ≡ some q)
        × (ffi_protocol (c_protocol_number q) ≡ some r)
        × (to_protocol r ≡ protocol_named p))
    × ((a : CppCa) → (b : LineSenderCa) × (c_ca a ≡ some b) × (ca_of b ≡ ca_named a))
    × ((b : LineSenderCa) → (r : FfiCa) × (ffi_ca (c_ca_number b) ≡ some r) × (to_ca r ≡ ca_of b))
unfolding c_protocol to_protocol c_ca to_ca ffi_protocol ffi_ca c_protocol_number c_ca_number
to_protocol-c_protocol = (protocols, authorities, passed)
  where
    protocols :
        (p : CppProtocol)
        → (q : LineSenderProtocol) × (r : FfiProtocol) × (c_protocol p ≡ some q)
          × (ffi_protocol (c_protocol_number q) ≡ some r)
          × (to_protocol r ≡ protocol_named p)
    protocols cpp_tcp = (c_tcp, ffi_tcp, refl, refl, refl)
    protocols cpp_tcps = (c_tcps, ffi_tcps, refl, refl, refl)
    protocols cpp_http = (c_http, ffi_http, refl, refl, refl)
    protocols cpp_https = (c_https, ffi_https, refl, refl, refl)

    authorities : (a : CppCa) → (b : LineSenderCa) × (c_ca a ≡ some b) × (ca_of b ≡ ca_named a)
    authorities cpp_webpki_roots = (c_webpki_roots, refl, refl)
    authorities cpp_os_roots = (c_os_roots, refl, refl)
    authorities cpp_webpki_and_os_roots = (c_webpki_and_os_roots, refl, refl)
    authorities cpp_pem_file = (c_pem_file, refl, refl)

    passed :
        (b : LineSenderCa) → (r : FfiCa) × (ffi_ca (c_ca_number b) ≡ some r) × (to_ca r ≡ ca_of b)
    passed c_webpki_roots = (ffi_webpki_roots, refl, refl)
    passed c_os_roots = (ffi_os_roots, refl, refl)
    passed c_webpki_and_os_roots = (ffi_webpki_and_os_roots, refl, refl)
    passed c_pem_file = (ffi_pem_file, refl, refl)
