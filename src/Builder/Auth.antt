-- ===== src/Builder/Auth.antt =====
-- `SenderBuilder::build_auth` of questdb-rs/src/ingress/mod.rs.
use c_questdb_client.Base.{
  ◌↔◌, Bool-cases, Bool, true, false, ◌≡◌, Option, none, some, inl, inr, if◌then◌else◌, arith,
}
use c_questdb_client.Error.{
  Result, ok, err, Error, error, Message, config_error, basic_auth_over_tcp, token_auth_over_tcp,
  incomplete_ecdsa, no_password, no_username, ecdsa_over_http, inconsistent_http_auth,
  incomplete_auth,
}
use c_questdb_client.Text.{Str}
use c_questdb_client.Builder.{SenderBuilder, deref, is_tcpx}

pub data AuthParams : Type 0 where
  ecdsa : (key_id priv_key pub_key_x pub_key_y : Str) → AuthParams
  basic : (username password : Str) → AuthParams
  bearer : (token : Str) → AuthParams

abbrev refuse : Message → Result (Option AuthParams)
refuse msg = err (error config_error msg)

-- The arms of the `match` in their order, for a TCP and for an HTTP protocol: the arguments are the
-- username, the password, the token and the two parts of the public key.
tcp_auth : (username password token token_x token_y : Option Str) → Result (Option AuthParams)
tcp_auth none none none none none = ok none
tcp_auth (some u) none (some t) (some x) (some y) = ok (some (ecdsa u t x y))
tcp_auth (some u) (some p) none none none = refuse basic_auth_over_tcp
tcp_auth none none (some t) none none = refuse token_auth_over_tcp
tcp_auth u none t x y = refuse incomplete_ecdsa
tcp_auth u p t x y = refuse incomplete_auth

http_auth : (username password token token_x token_y : Option Str) → Result (Option AuthParams)
http_auth none none none none none = ok none
http_auth (some u) (some p) none none none = ok (some (basic u p))
http_auth (some u) none none none none = refuse no_password
http_auth none (some p) none none none = refuse no_username
http_auth none none (some t) none none = ok (some (bearer t))
http_auth (some u) none (some t) (some x) (some y) = refuse ecdsa_over_http
http_auth u p t none none = refuse inconsistent_http_auth
http_auth u p t x y = refuse incomplete_auth

unfoldable pub build_auth : SenderBuilder → Result (Option AuthParams)
unfolding tcp_auth http_auth
build_auth b =
    if is_tcpx b.protocol
    then tcp_auth (deref b.username) (deref b.password) (deref b.token) (deref b.token_x)
        (deref b.token_y)
    else http_auth (deref b.username) (deref b.password) (deref b.token) (deref b.token_x)
        (deref b.token_y)

-- The parameters are exactly those of the authentication `a`: ECDSA over TCP, a password or a token
-- over HTTP, or none at all.
abbrev pub Given : (tcpx : Bool) → (u p t x y : Option Str) → Option AuthParams → Type 0
Given tcpx u p t x y none = (u ≡ none) × (p ≡ none) × (t ≡ none) × (x ≡ none) × (y ≡ none)
Given tcpx u p t x y (some (ecdsa k d v w)) =
    (tcpx ≡ true) × (u ≡ some k) × (p ≡ none) × (t ≡ some d) × (x ≡ some v) × (y ≡ some w)
Given tcpx u p t x y (some (basic n w)) =
    (tcpx ≡ false) × (u ≡ some n) × (p ≡ some w) × (t ≡ none) × (x ≡ none) × (y ≡ none)
Given tcpx u p t x y (some (bearer d)) =
    (tcpx ≡ false) × (u ≡ none) × (p ≡ none) × (t ≡ some d) × (x ≡ none) × (y ≡ none)

tcp_auth-Given :
    (u p t x y : Option Str) (a : Option AuthParams)
    → tcp_auth u p t x y ≡ ok a
    → Given true u p t x y a
unfolding tcp_auth
tcp_auth-Given u p t x y none h = ground arith
tcp_auth-Given u p t x y (some (ecdsa k d v w)) h = ground arith
tcp_auth-Given u p t x y (some (basic n w)) h = ground arith
tcp_auth-Given u p t x y (some (bearer d)) h = ground arith

Given-tcp_auth :
    (u p t x y : Option Str) (a : Option AuthParams)
    → Given true u p t x y a
    → tcp_auth u p t x y ≡ ok a
unfolding tcp_auth
Given-tcp_auth u p t x y none h = ground arith
Given-tcp_auth u p t x y (some (ecdsa k d v w)) h = ground arith
Given-tcp_auth u p t x y (some (basic n w)) h = ground arith
Given-tcp_auth u p t x y (some (bearer d)) h = ground arith

http_auth-Given :
    (u p t x y : Option Str) (a : Option AuthParams)
    → http_auth u p t x y ≡ ok a
    → Given false u p t x y a
unfolding http_auth
http_auth-Given u p t x y none h = ground arith
http_auth-Given u p t x y (some (ecdsa k d v w)) h = ground arith
http_auth-Given u p t x y (some (basic n w)) h = ground arith
http_auth-Given u p t x y (some (bearer d)) h = ground arith

Given-http_auth :
    (u p t x y : Option Str) (a : Option AuthParams)
    → Given false u p t x y a
    → http_auth u p t x y ≡ ok a
unfolding http_auth
Given-http_auth u p t x y none h = ground arith
Given-http_auth u p t x y (some (ecdsa k d v w)) h = ground arith
Given-http_auth u p t x y (some (basic n w)) h = ground arith
Given-http_auth u p t x y (some (bearer d)) h = ground arith

tcp_auth_code :
    (u p t x y : Option Str) (e : Error) → tcp_auth u p t x y ≡ err e → e.code ≡ config_error
unfolding tcp_auth
tcp_auth_code u p t x y e h = ground arith

http_auth_code :
    (u p t x y : Option Str) (e : Error) → http_auth u p t x y ≡ err e → e.code ≡ config_error
unfolding http_auth
http_auth_code u p t x y e h = ground arith

abbrev pub GivenBy : SenderBuilder → Option AuthParams → Type 0
GivenBy b a =
    Given (is_tcpx b.protocol) (deref b.username) (deref b.password) (deref b.token)
      (deref b.token_x) (deref b.token_y) a

-- The authentication is `a` exactly when the settings are those that `a` takes, all of them and no
-- other; else it is a `ConfigError`.
pub build_auth_lem :
    (b : SenderBuilder)
    → ((a : Option AuthParams) → (build_auth b ≡ ok a) ↔ GivenBy b a)
      × ((e : Error) → build_auth b ≡ err e → e.code ≡ config_error)
unfolding build_auth
build_auth_lem b = elim (Bool-cases (is_tcpx b.protocol)) [
  | inl over_tcp ↦ rw over_tcp (
    λ a. (tcp_auth-Given _ _ _ _ _ a, Given-tcp_auth _ _ _ _ _ a),
    λ e h. tcp_auth_code _ _ _ _ _ e h,
  )
  | inr over_http ↦ rw over_http (
    λ a. (http_auth-Given _ _ _ _ _ a, Given-http_auth _ _ _ _ _ a),
    λ e h. http_auth_code _ _ _ _ _ e h,
  )
]
