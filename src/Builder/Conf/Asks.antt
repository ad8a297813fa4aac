-- ===== src/Builder/Conf/Asks.antt =====
-- What the parameters of a configuration string ask for, key by key.
pub mod Followed
use c_questdb_client.Base.{
  ◌≡◌, sym, Bool-cases, ◌⊎◌, inl, inr, Bool, true, false, List, [], ◌∷◌, if◌then◌else◌, arith,
  codes, same_text, same_text_sound, any, some, Option-cases, refl,
}
use Prim.Native.String.{String}
use c_questdb_client.Error.{Result, ok, err, ◌>>=◌, Error}
use c_questdb_client.Text.{Str}
use c_questdb_client.Builder
use c_questdb_client.Builder.{SenderBuilder, CertificateAuthority}
use c_questdb_client.Builder.Build.{Environment}
use c_questdb_client.Builder.Conf.{
  set_param, set_params, parse_conf_value, parse_u64, tls_verify_of, tls_ca_of,
}
use c_questdb_client.Builder.Setters.Valid.{
  Change, apply, apply_all, ok_inv, ok-injective, bind_interface, username, password, token,
  token_x, token_y, tls_roots, auth_timeout, max_buf_size, retry_timeout, request_min_throughput,
  request_timeout, tls_verify, tls_ca,
}

-- The setter that a parameter stands for, one constructor to a key and to a value of a closed list.
pub data Asks (key val : Str) : Change → Type 0 where
  asks_username : key ≡ codes "username" → Asks key val (username val)
  asks_password : key ≡ codes "password" → Asks key val (password val)
  asks_token : key ≡ codes "token" → Asks key val (token val)
  asks_token_x : key ≡ codes "token_x" → Asks key val (token_x val)
  asks_token_y : key ≡ codes "token_y" → Asks key val (token_y val)
  asks_interface : key ≡ codes "bind_interface" → Asks key val (bind_interface val)
  asks_roots : key ≡ codes "tls_roots" → Asks key val (tls_roots val)
  asks_size :
      key ≡ codes "max_buf_size" → (n : _) → parse_u64 val ≡ some n → Asks key val (max_buf_size n)
  asks_auth :
      key ≡ codes "auth_timeout" → (n : _) → parse_u64 val ≡ some n → Asks key val (auth_timeout n)
  asks_throughput :
      key ≡ codes "request_min_throughput"
      → (n : _) → parse_u64 val ≡ some n
      → Asks key val (request_min_throughput n)
  asks_request :
      key ≡ codes "request_timeout"
      → (n : _) → parse_u64 val ≡ some n
      → Asks key val (request_timeout n)
  asks_retry :
      key ≡ codes "retry_timeout"
      → (n : _) → parse_u64 val ≡ some n
      → Asks key val (retry_timeout n)
  asks_verify : key ≡ codes "tls_verify" → val ≡ codes "on" → Asks key val (tls_verify true)
  asks_unsafe :
      key ≡ codes "tls_verify" → val ≡ codes "unsafe_off" → Asks key val (tls_verify false)
  asks_webpki :
      key ≡ codes "tls_ca" → val ≡ codes "webpki_roots" → Asks key val (tls_ca Builder.webpki_roots)
  asks_os : key ≡ codes "tls_ca" → val ≡ codes "os_roots" → Asks key val (tls_ca Builder.os_roots)
  asks_both :
      key ≡ codes "tls_ca"
      → val ≡ codes "webpki_and_os_roots"
      → Asks key val (tls_ca Builder.webpki_and_os_roots)

-- The keys that mean something, those that are always refused included; any other is skipped.
abbrev pub known : List Str
known =
    codes "username"
    ∷ codes "password"
    ∷ codes "token"
    ∷ codes "token_x"
    ∷ codes "token_y"
    ∷ codes "bind_interface"
    ∷ codes "init_buf_size"
    ∷ codes "max_buf_size"
    ∷ codes "auth_timeout"
    ∷ codes "tls_verify"
    ∷ codes "tls_ca"
    ∷ codes "tls_roots"
    ∷ codes "tls_roots_password"
    ∷ codes "request_min_throughput"
    ∷ codes "request_timeout"
    ∷ codes "retry_timeout"
    ∷ []

unfoldable pub is_known : Str → Bool
is_known key = any (λ k. same_text key k) known

-- The setters of a list of parameters, in their order.
pub data Asked : List (Str × Str) → List Change → Type 0 where
  asked_nothing : Asked [] []
  asked_set :
      {key val : Str} {params : List (Str × Str)} {c : Change} {cs : List Change}
      → Asks key val c
      → Asked params cs
      → Asked ((key, val) ∷ params) (c ∷ cs)
  asked_skip :
      {key val : Str} {params : List (Str × Str)} {cs : List Change}
      → is_known key ≡ false
      → Asked params cs
      → Asked ((key, val) ∷ params) cs
