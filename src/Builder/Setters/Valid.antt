-- ===== src/Builder/Setters/Valid.antt =====
-- What the setters keep of a `SenderBuilder`.
use c_questdb_client.Base.{
  ◌&&◌, ◌||◌, ℕ, ◌≡◌, ◌≤◌, Bool, true, false, Option, none, some, List, [], ◌∷◌, ltb, arith, refl,
}
use c_questdb_client.Error.{Result, ok, err, ◌>>=◌}
use c_questdb_client.Text.{Str}
use c_questdb_client.Builder.{
  SenderBuilder, HttpConfig, ConfigSetting, specified, defaulted, CertificateAuthority, pem_file,
  deref, set_specified, validate_value, tls_enabled, is_tcpx, is_httpx, same_ca, Protocol, new,
}
use c_questdb_client.Builder
use c_questdb_client.Builder.Setters

-- A call of a setter.
pub data Change : Type 0 where
  bind_interface username password token token_x token_y user_agent tls_roots : Str → Change
  auth_timeout max_buf_size retry_timeout request_min_throughput request_timeout : ℕ → Change
  tls_verify : Bool → Change
  tls_ca : CertificateAuthority → Change

module _ (opens : Str → Bool) where
  unfoldable pub apply : Change → SenderBuilder → Result SenderBuilder
  apply (bind_interface s) = Setters.bind_interface s
  apply (username s) = Setters.username s
  apply (password s) = Setters.password s
  apply (token s) = Setters.token s
  apply (token_x s) = Setters.token_x s
  apply (token_y s) = Setters.token_y s
  apply (user_agent s) = Setters.user_agent s
  apply (tls_roots s) = Setters.tls_roots opens s
  apply (auth_timeout n) = Setters.auth_timeout n
  apply (max_buf_size n) = Setters.max_buf_size n
  apply (retry_timeout n) = Setters.retry_timeout n
  apply (request_min_throughput n) = Setters.request_min_throughput n
  apply (request_timeout n) = Setters.request_timeout n
  apply (tls_verify v) = Setters.tls_verify v
  apply (tls_ca ca) = Setters.tls_ca ca

  -- A chain of setters, as `from_conf` and a program make it.
  unfoldable pub apply_all : List Change → SenderBuilder → Result SenderBuilder
  unfolding apply
  apply_all [] b = ok b
  apply_all (c ∷ cs) b = apply c b >>= apply_all cs

pub ok-injective : {A : Type 0} {a b : A} → ok a ≡ ok b → a ≡ b
ok-injective h = cc

pub ok_inv :
    {A B : Type 0} (r : Result A) (f : A → Result B) (b : B)
    → (r >>= f) ≡ ok b
    → (a : A) × (r ≡ ok a) × (f a ≡ ok b)
ok_inv (ok a) f b h = (a, refl, h)
ok_inv (err e) f b h = ground arith

abbrev is_none : {A : Type 0} → Option A → Bool
is_none (some a) = false
is_none none = true

abbrev http_is_valid : SenderBuilder → Bool
http_is_valid b = elim b.http_config [
  | some http ↦ is_httpx b.protocol && ltb 0 (deref http.request_timeout)
  | none ↦ is_tcpx b.protocol
]

abbrev interface_is_valid : SenderBuilder → Bool
interface_is_valid b = is_none (deref b.net_interface) || is_tcpx b.protocol

abbrev is_pem : ConfigSetting CertificateAuthority → Bool
is_pem (specified ca) = same_ca ca pem_file
is_pem (defaulted ca) = false

abbrev roots_is_valid : SenderBuilder → Bool
roots_is_valid b = is_none (deref b.tls_roots) || (tls_enabled b.protocol && is_pem b.tls_ca)

-- A builder as the setters keep it: a limit of at least 1024 bytes, an HTTP configuration exactly for
-- HTTP, with a timeout that is not zero, an interface only for TCP, and a file of certificates only
-- with TLS and the authority that it needs, set for good.
pub record IsValid (b : SenderBuilder) : Type 0 where
  pub size : 1024 ≤ deref b.max_buf_size
  pub http : http_is_valid b ≡ true
  pub interface : interface_is_valid b ≡ true
  pub roots : roots_is_valid b ≡ true

new-IsValid :
    (version : Str) (p : Protocol) (host port : Str) → IsValid (Builder.new version p host port)
unfolding Builder.new
new-IsValid version Builder.tcp host port = record {
  size = omega arith;
  http = refl;
  interface = refl;
  roots = refl;
}
new-IsValid version Builder.tcps host port = record {
  size = omega arith;
  http = refl;
  interface = refl;
  roots = refl;
}
new-IsValid version Builder.http host port = record {
  size = omega arith;
  http = refl;
  interface = refl;
  roots = refl;
}
new-IsValid version Builder.https host port = record {
  size = omega arith;
  http = refl;
  interface = refl;
  roots = refl;
}

module _ (opens : Str → Bool) where
  apply-size :
      (c : Change) (b b' : SenderBuilder)
      → 1024 ≤ deref b.max_buf_size
      → apply opens c b ≡ ok b'
      → 1024 ≤ deref b'.max_buf_size
  unfolding apply set_specified Setters.bind_interface Setters.username Setters.password
      Setters.token Setters.token_x Setters.token_y Setters.user_agent Setters.tls_roots
      Setters.auth_timeout Setters.max_buf_size Setters.retry_timeout Setters.request_min_throughput
      Setters.request_timeout Setters.tls_verify Setters.tls_ca Setters.set_text Setters.with_http
      Setters.ensure_is_tcpx Setters.ensure_tls_enabled
  apply-size (bind_interface v) b b' before h = ground arith
  apply-size (username v) b b' before h = ground arith
  apply-size (password v) b b' before h = ground arith
  apply-size (token v) b b' before h = ground arith
  apply-size (token_x v) b b' before h = ground arith
  apply-size (token_y v) b b' before h = ground arith
  apply-size (user_agent v) b b' before h = ground arith
  apply-size (tls_roots v) b b' before h = ground arith
  apply-size (auth_timeout v) b b' before h = ground arith
  apply-size (max_buf_size v) b b' before h = ground arith
  apply-size (retry_timeout v) b b' before h = ground arith
  apply-size (request_min_throughput v) b b' before h = ground arith
  apply-size (request_timeout v) b b' before h = ground arith
  apply-size (tls_verify v) b b' before h = ground arith
  apply-size (tls_ca v) b b' before h = ground arith

  apply-http :
      (c : Change) (b b' : SenderBuilder)
      → http_is_valid b ≡ true
      → apply opens c b ≡ ok b'
      → http_is_valid b' ≡ true
  unfolding apply set_specified Setters.bind_interface Setters.username Setters.password
      Setters.token Setters.token_x Setters.token_y Setters.user_agent Setters.tls_roots
      Setters.auth_timeout Setters.max_buf_size Setters.retry_timeout Setters.request_min_throughput
      Setters.request_timeout Setters.tls_verify Setters.tls_ca Setters.set_text Setters.with_http
      Setters.ensure_is_tcpx Setters.ensure_tls_enabled
  apply-http (bind_interface v) b b' before h = ground arith
  apply-http (username v) b b' before h = ground arith
  apply-http (password v) b b' before h = ground arith
  apply-http (token v) b b' before h = ground arith
  apply-http (token_x v) b b' before h = ground arith
  apply-http (token_y v) b b' before h = ground arith
  apply-http (user_agent v) b b' before h = ground arith
  apply-http (tls_roots v) b b' before h = ground arith
  apply-http (auth_timeout v) b b' before h = ground arith
  apply-http (max_buf_size v) b b' before h = ground arith
  apply-http (retry_timeout v) b b' before h = ground arith
  apply-http (request_min_throughput v) b b' before h = ground arith
  apply-http (request_timeout v) b b' before h = ground arith
  apply-http (tls_verify v) b b' before h = ground arith
  apply-http (tls_ca v) b b' before h = ground arith

  apply-interface :
      (c : Change) (b b' : SenderBuilder)
      → interface_is_valid b ≡ true
      → apply opens c b ≡ ok b'
      → interface_is_valid b' ≡ true
  unfolding apply set_specified Setters.bind_interface Setters.username Setters.password
      Setters.token Setters.token_x Setters.token_y Setters.user_agent Setters.tls_roots
      Setters.auth_timeout Setters.max_buf_size Setters.retry_timeout Setters.request_min_throughput
      Setters.request_timeout Setters.tls_verify Setters.tls_ca Setters.set_text Setters.with_http
      Setters.ensure_is_tcpx Setters.ensure_tls_enabled
  apply-interface (bind_interface v) b b' before h = ground arith
  apply-interface (username v) b b' before h = ground arith
  apply-interface (password v) b b' before h = ground arith
  apply-interface (token v) b b' before h = ground arith
  apply-interface (token_x v) b b' before h = ground arith
  apply-interface (token_y v) b b' before h = ground arith
  apply-interface (user_agent v) b b' before h = ground arith
  apply-interface (tls_roots v) b b' before h = ground arith
  apply-interface (auth_timeout v) b b' before h = ground arith
  apply-interface (max_buf_size v) b b' before h = ground arith
  apply-interface (retry_timeout v) b b' before h = ground arith
  apply-interface (request_min_throughput v) b b' before h = ground arith
  apply-interface (request_timeout v) b b' before h = ground arith
  apply-interface (tls_verify v) b b' before h = ground arith
  apply-interface (tls_ca v) b b' before h = ground arith

  apply-roots :
      (c : Change) (b b' : SenderBuilder)
      → roots_is_valid b ≡ true
      → apply opens c b ≡ ok b'
      → roots_is_valid b' ≡ true
  unfolding apply set_specified Setters.bind_interface Setters.username Setters.password
      Setters.token Setters.token_x Setters.token_y Setters.user_agent Setters.tls_roots
      Setters.auth_timeout Setters.max_buf_size Setters.retry_timeout Setters.request_min_throughput
      Setters.request_timeout Setters.tls_verify Setters.tls_ca Setters.set_text Setters.with_http
      Setters.ensure_is_tcpx Setters.ensure_tls_enabled
  apply-roots (bind_interface v) b b' before h = ground arith
  apply-roots (username v) b b' before h = ground arith
  apply-roots (password v) b b' before h = ground arith
  apply-roots (token v) b b' before h = ground arith
  apply-roots (token_x v) b b' before h = ground arith
  apply-roots (token_y v) b b' before h = ground arith
  apply-roots (user_agent v) b b' before h = ground arith
  apply-roots (tls_roots v) b b' before h = ground arith
  apply-roots (auth_timeout v) b b' before h = ground arith
  apply-roots (max_buf_size v) b b' before h = ground arith
  apply-roots (retry_timeout v) b b' before h = ground arith
  apply-roots (request_min_throughput v) b b' before h = ground arith
  apply-roots (request_timeout v) b b' before h = ground arith
  apply-roots (tls_verify v) b b' before h = ground arith
  apply-roots (tls_ca v) b b' before h = ground arith

  -- A setter that succeeds keeps a valid builder valid.
  pub apply-IsValid :
      (c : Change) (b b' : SenderBuilder) → IsValid b → apply opens c b ≡ ok b' → IsValid b'
  apply-IsValid c b b' v h = record {
    size = apply-size c b b' v.size h;
    http = apply-http c b b' v.http h;
    interface = apply-interface c b b' v.interface h;
    roots = apply-roots c b b' v.roots h;
  }

  apply_all-IsValid :
      (cs : List Change) (b b' : SenderBuilder)
      → IsValid b
      → apply_all opens cs b ≡ ok b'
      → IsValid b'
  unfolding apply_all
  apply_all-IsValid [] b b' v h = rw (← ok-injective h) v
  apply_all-IsValid (c ∷ cs) b b' v h =
      let (b₁, is, rest) = ok_inv (apply opens c b) (apply_all opens cs) b' h in
      apply_all-IsValid cs b₁ b' (apply-IsValid c b b₁ v is) rest

  -- Whatever setters are called on a new builder: where they all succeed, the builder is valid.
  pub apply_all-new :
      (version : Str) (p : Protocol) (host port : Str) (cs : List Change) (b : SenderBuilder)
      → apply_all opens cs (Builder.new version p host port) ≡ ok b
      → IsValid b
  apply_all-new version p host port cs b =
      apply_all-IsValid cs _ b (new-IsValid version p host port)
