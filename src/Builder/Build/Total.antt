-- ===== src/Builder/Build/Total.antt =====
-- Building from a valid builder.
use c_questdb_client.Base.{
  ◌≡◌, ◌≢◌, Option, none, some, arith, true, false, Bool-cases, inl, if◌then◌else◌, inr, ◌≤◌, refl,
}
use c_questdb_client.Error.{Result, ok, err, Result-cases}
use c_questdb_client.Builder.{SenderBuilder, deref, is_tcpx, HttpConfig}
use c_questdb_client.Builder.Setters.Valid.{IsValid}
use c_questdb_client.Builder.Auth.{build_auth, AuthParams}
use c_questdb_client.Builder.Build.{
  Environment, build, build_http, build_with, build_tcp, http_handler, is_specified_interface,
  ProtocolHandler, header_check,
}
use c_questdb_client.Sender.{Sender}

-- A sender that is built: connected, over the transport of its protocol, and with the limit of the
-- builder, which is at least 1024 bytes.
pub record Built (b : SenderBuilder) (s : Sender) : Type 0 where
  pub connected : s.connected ≡ true
  pub handler :
      s.handler ≡ (if is_tcpx b.protocol then ProtocolHandler.socket else ProtocolHandler.http)
  pub limit : s.max_buf_size ≡ deref b.max_buf_size
  pub size : 1024 ≤ s.max_buf_size

-- What `build` of a valid builder may end with: no panic.
abbrev pub Ends : SenderBuilder → Option (Result Sender) → Type 0
Ends b none = ⊥
Ends b (some (ok s)) = Built b s
Ends b (some (err e)) = Unit

module _ (env : Environment) where
  build_tcp-Ends :
      (b : SenderBuilder) (auth : Option AuthParams)
      → IsValid b
      → is_tcpx b.protocol ≡ true
      → Ends b (some (build_tcp env b auth))
  unfolding build_tcp
  build_tcp-Ends b auth v t = elim (Result-cases (env.connect_tcp b auth)) [
    | inl (u, is) ↦
        rw is (record { connected = refl; handler = rw t refl; limit = refl; size = v.size })
    | inr (e, is) ↦ rw is tt
  ]

  http_handler-Ends :
      (b : SenderBuilder) (auth : Option AuthParams)
      → IsValid b
      → is_tcpx b.protocol ≡ false
      → Ends b (some (http_handler env b auth))
  unfolding http_handler
  http_handler-Ends b auth v t = elim (Result-cases (env.configure_tls b)) [
    | inl (u, is) ↦ elim (Result-cases (header_check auth)) [
      | inl (w, fits) ↦
          rw (is, fits)
            (record { connected = refl; handler = rw t refl; limit = refl; size = v.size })
      | inr (e, bad) ↦ rw (is, bad) tt
    ]
    | inr (e, is) ↦ rw is tt
  ]

  build_http-Ends :
      (b : SenderBuilder) (auth : Option AuthParams) (http : Option HttpConfig)
      → IsValid b
      → is_tcpx b.protocol ≡ false
      → http ≢ none
      → Ends b (build_http env b auth http)
  unfolding build_http
  build_http-Ends b auth none v t some_http = absurd (some_http refl)
  build_http-Ends b auth (some config) v t some_http =
      elim (Bool-cases (is_specified_interface (deref b.net_interface))) [
        | inl given ↦ rw given tt
        | inr absent ↦ rw absent (http_handler-Ends b auth v t)
      ]

  http_config-ne-none :
      (b : SenderBuilder) → IsValid b → is_tcpx b.protocol ≡ false → b.http_config ≢ none
  http_config-ne-none b v t is = ground (arith, v.http)

  -- Building from a valid builder does not panic: it ends with an error, or with a sender that is
  -- connected, over the transport of its protocol, and has the limit of the builder, at least 1024
  -- bytes.
  pub build-Ends : (b : SenderBuilder) → IsValid b → Ends b (build env b)
  unfolding build build_with
  build-Ends b v = elim (Result-cases (build_auth b)) [
    | inr (e, is) ↦ rw is tt
    | inl (auth, is) ↦ elim (Bool-cases (is_tcpx b.protocol)) [
      | inl t ↦ rw (is, t) (build_tcp-Ends b auth v t)
      | inr t ↦ rw (is, t) (build_http-Ends b auth b.http_config v t (http_config-ne-none b v t))
    ]
  ]
