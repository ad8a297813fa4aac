-- ===== src/Builder/Conf/Asks/Followed.antt =====
-- The loop of `from_conf` calls the setters that the parameters ask for.
use c_questdb_client.Base.{
  ◌≡◌, sym, Bool-cases, ◌⊎◌, inl, inr, Bool, true, false, List, [], ◌∷◌, if◌then◌else◌, arith,
  codes, same_text, same_text_sound, any, some, Option-cases, refl,
}
use Prim.Native.String.{String}
use c_questdb_client.Error.{Result, ok, err, ◌>>=◌, Error}
use c_questdb_client.Text.{Str}
use c_questdb_client.Builder
use c_questdb_client.Builder.{SenderBuilder, CertificateAuthority}
use c_questdb_client.Builder.Build.{Environment}
use c_questdb_client.Builder.Conf.{
  set_param, set_params, parse_conf_value, parse_u64, tls_verify_of, tls_ca_of,
}
use c_questdb_client.Builder.Setters.Valid.{
  Change, apply, apply_all, ok_inv, ok-injective, bind_interface, username, password, token,
  token_x, token_y, tls_roots, auth_timeout, max_buf_size, retry_timeout, request_min_throughput,
  request_timeout, tls_verify, tls_ca,
}
use c_questdb_client.Builder.Conf.Asks.{
  Asks, asks_username, asks_password, asks_token, asks_token_x, asks_token_y, asks_interface,
  asks_roots, asks_size, asks_auth, asks_throughput, asks_request, asks_retry, asks_verify,
  asks_unsafe, asks_webpki, asks_os, asks_both, Asked, asked_nothing, asked_set, asked_skip, known,
  is_known,
}

-- What an arm of the `match` gives: an error, or what the setter that the parameter asks for makes of
-- the builder.
record Hit (opens : Str → Bool) (key val : Str) (b : SenderBuilder) (r : Result SenderBuilder)
    : Type 0 where
  by : (b' : SenderBuilder) → r ≡ ok b' → (c : Change) × Asks key val c × (apply opens c b ≡ ok b')

-- What the arms for a list of keys give: that, or the builder itself for a key that is another.
record Follows (opens : Str → Bool) (key val : Str) (b : SenderBuilder) (keys : List Str)
    (r : Result SenderBuilder) : Type 0 where
  by :
      (b' : SenderBuilder)
      → r ≡ ok b'
      → ((any (λ k. same_text key k) keys ≡ false) × (b' ≡ b))
        ⊎ ((c : Change) × Asks key val c × (apply opens c b ≡ ok b'))

-- The arm for a key.
record Arm (opens : Str → Bool) (key val : Str) (b : SenderBuilder) (k : Str)
    (r : Result SenderBuilder) : Type 0 where
  hit : key ≡ k → Hit opens key val b r

passed_on :
    {A : Type 0} (key k : Str) (ks : List Str) {b b' : SenderBuilder}
    → same_text key k ≡ false
    → ((any (λ k. same_text key k) ks ≡ false) × (b' ≡ b)) ⊎ A
    → ((any (λ k. same_text key k) (k ∷ ks) ≡ false) × (b' ≡ b)) ⊎ A
passed_on key k ks other (inl (none_is, same)) = inl (rw other none_is, same)
passed_on key k ks other (inr one) = inr one

module _ {opens : Str → Bool} {key val : Str} {b : SenderBuilder} where
  arm :
      (k : String) {r : Result SenderBuilder}
      → (key ≡ codes k → Hit opens key val b r)
      → Arm opens key val b (codes k) r
  arm k h = record { hit = h }

  first :
      {k : Str} {ks : List Str} {r s : Result SenderBuilder}
      → Arm opens key val b k r
      → Follows opens key val b ks s
      → Follows opens key val b (k ∷ ks) (if same_text key k then r else s)
  first {k} {ks} a f = elim (Bool-cases (same_text key k)) [
    | inl is ↦ record { by = λ b' h. inr ((a.hit (same_text_sound key k is)).by b' (rw is at h)) }
    | inr other ↦ record { by = λ b' h. passed_on key k ks other (f.by b' (rw other at h)) }
  ]

  by_nothing : Follows opens key val b [] (ok b)
  by_nothing = record { by = λ b' h. inl (refl, sym (ok-injective h)) }

  by_setter : (c : Change) → Asks key val c → Hit opens key val b (apply opens c b)
  by_setter c a = record { by = λ b' h. (c, a, h) }

  by_error : (e : Error) → Hit opens key val b (err e)
  by_error e = record { by = λ b' h. absurd (cc) }

  by_parsed :
      {A : Type 0} (r : Result A) (f : A → Change)
      → ((a : A) → r ≡ ok a → Asks key val (f a))
      → Hit opens key val b (r >>= λ a. apply opens (f a) b)
  by_parsed (ok a) f h = by_setter (f a) (h a refl)
  by_parsed (err e) f h = by_error e

infixr 5 ◌|>◌
◌|>◌ :
    {opens : Str → Bool} {key val : Str} {b : SenderBuilder} {k : Str} {ks : List Str}
    {r s : Result SenderBuilder}
    → Arm opens key val b k r
    → Follows opens key val b ks s
    → Follows opens key val b (k ∷ ks) (if same_text key k then r else s)
a |> f = first a f

parsed : (key val : Str) (n : _) → parse_conf_value key val ≡ ok n → parse_u64 val ≡ some n
unfolding parse_conf_value
parsed key val n h = elim (Option-cases (parse_u64 val)) [
  | inl none_is ↦ absurd (ground arith)
  | inr (k, is) ↦ ground arith
]

verify-Asks :
    (key val : Str)
    → key ≡ codes "tls_verify"
    → (v : Bool) → tls_verify_of val ≡ ok v
    → Asks key val (tls_verify v)
unfolding tls_verify_of
verify-Asks key val e v h = elim (Bool-cases (same_text val (codes "on"))) [
  | inl on ↦ let is : v ≡ true = ground arith in rw is (asks_verify e (same_text_sound val _ on))
  | inr other ↦ elim (Bool-cases (same_text val (codes "unsafe_off"))) [
    | inl off ↦
        let is : v ≡ false = ground arith in rw is (asks_unsafe e (same_text_sound val _ off))
    | inr neither ↦ absurd (ground arith)
  ]
]

ca-Asks :
    (key val : Str)
    → key ≡ codes "tls_ca"
    → (ca : CertificateAuthority) → tls_ca_of val ≡ ok ca
    → Asks key val (tls_ca ca)
unfolding tls_ca_of
ca-Asks key val e ca h = elim (Bool-cases (same_text val (codes "webpki_roots"))) [
  | inl webpki ↦
      let is : ca ≡ Builder.webpki_roots = ground arith in
      rw is (asks_webpki e (same_text_sound val _ webpki))
  | inr n₁ ↦ elim (Bool-cases (same_text val (codes "os_roots"))) [
    | inl os ↦
        let is : ca ≡ Builder.os_roots = ground arith in
        rw is (asks_os e (same_text_sound val _ os))
    | inr n₂ ↦ elim (Bool-cases (same_text val (codes "webpki_and_os_roots"))) [
      | inl both ↦
          let is : ca ≡ Builder.webpki_and_os_roots = ground arith in
          rw is (asks_both e (same_text_sound val _ both))
      | inr n₃ ↦ absurd (ground arith)
    ]
  ]
]

module _ (env : Environment) where
  set_param-Follows :
      (key val : Str) (b : SenderBuilder)
      → Follows env.opens key val b known (set_param env key val b)
  unfolding set_param apply
  set_param-Follows key val b =
      arm "username" (λ e. by_setter (username val) (asks_username e))
      |> arm "password" (λ e. by_setter (password val) (asks_password e))
      |> arm "token" (λ e. by_setter (token val) (asks_token e))
      |> arm "token_x" (λ e. by_setter (token_x val) (asks_token_x e))
      |> arm "token_y" (λ e. by_setter (token_y val) (asks_token_y e))
      |> arm "bind_interface" (λ e. by_setter (bind_interface val) (asks_interface e))
      |> arm "init_buf_size" (λ e. by_error _)
      |> arm "max_buf_size" (λ e.
        by_parsed (parse_conf_value key val) max_buf_size
          (λ n h. asks_size e n (parsed key val n h)))
      |> arm "auth_timeout" (λ e.
        by_parsed (parse_conf_value key val) auth_timeout
          (λ n h. asks_auth e n (parsed key val n h)))
      |> arm "tls_verify" (λ e. by_parsed (tls_verify_of val) tls_verify (verify-Asks key val e))
      |> arm "tls_ca" (λ e. by_parsed (tls_ca_of val) tls_ca (ca-Asks key val e))
      |> arm "tls_roots" (λ e. by_setter (tls_roots val) (asks_roots e))
      |> arm "tls_roots_password" (λ e. by_error _)
      |> arm "request_min_throughput" (λ e.
        by_parsed (parse_conf_value key val) request_min_throughput
          (λ n h. asks_throughput e n (parsed key val n h)))
      |> arm "request_timeout" (λ e.
        by_parsed (parse_conf_value key val) request_timeout
          (λ n h. asks_request e n (parsed key val n h)))
      |> arm "retry_timeout" (λ e.
        by_parsed (parse_conf_value key val) retry_timeout
          (λ n h. asks_retry e n (parsed key val n h)))
      |> by_nothing

  -- The setters that the parameters ask for are those that are called.
  pub set_params-Asked :
      (params : List (Str × Str)) (b b' : SenderBuilder)
      → set_params env params b ≡ ok b'
      → (cs : List Change) × Asked params cs × (apply_all env.opens cs b ≡ ok b')
  unfolding set_params apply_all is_known
  set_params-Asked [] b b' h = ([], asked_nothing, h)
  set_params-Asked ((key, val) ∷ params) b b' h =
      let (b₁, is, rest) = ok_inv (set_param env key val b) (set_params env params) b' h in
      let (cs, asked, later) = set_params-Asked params b₁ b' rest in
      elim ((set_param-Follows key val b).by b₁ is) [
        | inl (unknown, same) ↦ (cs, asked_skip unknown asked, rw (sym same) later)
        | inr (c, asks, now) ↦ (c ∷ cs, asked_set asks asked, rw now later)
      ]
