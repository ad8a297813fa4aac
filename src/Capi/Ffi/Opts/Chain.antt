-- ===== src/Capi/Ffi/Opts/Chain.antt =====
-- A program that sets options with the functions of line_sender.h, one after the other, stops at the
-- first that fails, and builds a sender.
use c_questdb_client.Base.{
  ℕ, ◌≡◌, refl, Bool, Option, none, some, List, [], ◌∷◌, inl, inr, ◌==◌, arith, Option-cases, true,
}
use c_questdb_client.Error.{Result, ok, err, Result-cases}
use c_questdb_client.Number.{Formatters}
use c_questdb_client.Builder.{SenderBuilder}
use c_questdb_client.Builder.Build.{Environment, build}
use c_questdb_client.Builder.Setters.Valid
use c_questdb_client.Builder.Setters.Valid.{Change, apply, apply_all}
use c_questdb_client.Sender.{Sender, Network}
use c_questdb_client.Capi.Enums.{
  LineSenderCa, to_ca, ca_of, c_webpki_roots, c_os_roots, c_webpki_and_os_roots, c_pem_file,
}
use c_questdb_client.Capi.Memory.{
  and_on, ◌&>◌, Ptr, Memory, Run, returned, aborted, Cmd, Outcome, done, failed, update,
}
use c_questdb_client.Capi.Header.{LineSenderApi, LineSenderUtf8}
use c_questdb_client.Capi.Ffi.{as_str}
use c_questdb_client.Capi.Ffi.Opts as FfiOpts
use c_questdb_client.Capi.Ffi.Opts.{upd_opts, dummy, sender_build}
use c_questdb_client.Capi.Ffi.Library.{library}

-- A call of a function that sets an option.
pub data OptsCall : Type 0 where
  bind_interface username password token token_x token_y tls_roots user_agent :
      LineSenderUtf8 → OptsCall
  auth_timeout max_buf_size retry_timeout request_min_throughput request_timeout : ℕ → OptsCall
  tls_verify : Bool → OptsCall
  tls_ca : LineSenderCa → OptsCall

-- The setter of the builder that a call stands for.
abbrev pub change : OptsCall → Change
change (bind_interface s) = Valid.bind_interface (as_str s)
change (username s) = Valid.username (as_str s)
change (password s) = Valid.password (as_str s)
change (token s) = Valid.token (as_str s)
change (token_x s) = Valid.token_x (as_str s)
change (token_y s) = Valid.token_y (as_str s)
change (tls_roots s) = Valid.tls_roots (as_str s)
change (user_agent s) = Valid.user_agent (as_str s)
change (auth_timeout n) = Valid.auth_timeout n
change (max_buf_size n) = Valid.max_buf_size n
change (retry_timeout n) = Valid.retry_timeout n
change (request_min_throughput n) = Valid.request_min_throughput n
change (request_timeout n) = Valid.request_timeout n
change (tls_verify v) = Valid.tls_verify v
change (tls_ca ca) = Valid.tls_ca (ca_of ca)

abbrev pub changes : List OptsCall → List Change
changes [] = []
changes (c ∷ cs) = change c ∷ changes cs

module _ (api : LineSenderApi) where
  abbrev pub call : OptsCall → Ptr → Cmd (Outcome (Unit {0}))
  call (bind_interface s) p = api.opts_auth.bind_interface p s
  call (username s) p = api.opts_auth.username p s
  call (password s) p = api.opts_auth.password p s
  call (token s) p = api.opts_auth.token p s
  call (token_x s) p = api.opts_auth.token_x p s
  call (token_y s) p = api.opts_auth.token_y p s
  call (tls_roots s) p = api.opts_tls.tls_roots p s
  call (user_agent s) p = api.opts_http.user_agent p s
  call (auth_timeout n) p = api.opts_auth.auth_timeout p n
  call (max_buf_size n) p = api.opts_http.max_buf_size p n
  call (retry_timeout n) p = api.opts_http.retry_timeout p n
  call (request_min_throughput n) p = api.opts_http.request_min_throughput p n
  call (request_timeout n) p = api.opts_http.request_timeout p n
  call (tls_verify v) p = api.opts_tls.tls_verify p v
  call (tls_ca ca) p = api.opts_tls.tls_ca p ca

  abbrev pub calls : List OptsCall → Ptr → Cmd (Outcome (Unit {0}))
  calls [] p m = returned (done tt) m
  calls (c ∷ cs) p m = (call c p &> calls cs p) m

  -- The whole program, from the options behind `p`.
  abbrev pub configured : List OptsCall → Ptr → Cmd (Outcome Ptr)
  configured cs p m = (calls cs p &> api.builds.build p) m

-- What the calls leave: the builder behind `p`, or an error object and the dummy's options.
abbrev pub After : Ptr → Run (Outcome (Unit {0})) → Result SenderBuilder → Type 0
After p (returned (done _) m) (ok b) = m.opts p ≡ some b
After p (returned (failed q) m) (err e) = (m.errors q ≡ some e) × (m.opts p ≡ some dummy)
After p _ _ = ⊥

-- What building answers: a sender, an error object, or the end of the process for a panic.
abbrev pub Answer : Run (Outcome Ptr) → Option (Result Sender) → Type 0
Answer (returned (done q) m) (some (ok s)) = m.senders q ≡ some s
Answer (returned (failed q) m) (some (err e)) = m.errors q ≡ some e
Answer aborted none = Unit
Answer _ _ = ⊥

-- The builder that the setters make, built.
abbrev pub chained : Environment → Result SenderBuilder → Option (Result Sender)
chained env (ok b) = build env b
chained env (err e) = some (err e)

self : (p : Ptr) → (p == p) ≡ true
self p = ground arith

module _ (x : Formatters) (n : Network) (env : Environment) where
  call-upd_opts :
      (c : OptsCall) (p : Ptr)
      → call (library x n env) c p ≡ upd_opts p (apply env.opens (change c))
  unfolding apply upd_opts FfiOpts.opts_bind_interface FfiOpts.opts_username FfiOpts.opts_password
      FfiOpts.opts_token FfiOpts.opts_token_x FfiOpts.opts_token_y FfiOpts.opts_tls_roots
      FfiOpts.opts_user_agent FfiOpts.opts_auth_timeout FfiOpts.opts_max_buf_size
      FfiOpts.opts_retry_timeout FfiOpts.opts_request_min_throughput FfiOpts.opts_request_timeout
      FfiOpts.opts_tls_verify FfiOpts.opts_tls_ca to_ca
  call-upd_opts (bind_interface s) p = refl
  call-upd_opts (username s) p = refl
  call-upd_opts (password s) p = refl
  call-upd_opts (token s) p = refl
  call-upd_opts (token_x s) p = refl
  call-upd_opts (token_y s) p = refl
  call-upd_opts (tls_roots s) p = refl
  call-upd_opts (user_agent s) p = refl
  call-upd_opts (auth_timeout n) p = refl
  call-upd_opts (max_buf_size n) p = refl
  call-upd_opts (retry_timeout n) p = refl
  call-upd_opts (request_min_throughput n) p = refl
  call-upd_opts (request_timeout n) p = refl
  call-upd_opts (tls_verify v) p = refl
  call-upd_opts (tls_ca c_webpki_roots) p = refl
  call-upd_opts (tls_ca c_os_roots) p = refl
  call-upd_opts (tls_ca c_webpki_and_os_roots) p = refl
  call-upd_opts (tls_ca c_pem_file) p = refl

  -- The functions that set options do to the options behind a pointer what the setters of the
  -- builder do, in a chain that stops at the first failure; behind a failure there is an error
  -- object with the setter's error, and the options are those of a dummy, a new TCP builder for
  -- localhost and port 1.
  pub calls-apply_all :
      (cs : List OptsCall) (p : Ptr) (b : SenderBuilder) (m : Memory)
      → m.opts p ≡ some b
      → After p (calls (library x n env) cs p m) (apply_all env.opens (changes cs) b)
  unfolding apply_all upd_opts
  calls-apply_all [] p b m h = h
  calls-apply_all (c ∷ cs) p b m h = elim (Result-cases (apply env.opens (change c) b)) [
    | inl (b₁, is) ↦
        rw (call-upd_opts c p, h, is)
          (calls-apply_all cs p b₁ (record m { opts = update m.opts p (some b₁) }) (rw self refl))
    | inr (e, is) ↦ rw (call-upd_opts c p, h, is) (rw self refl, rw self refl)
  ]

  sender_build-Answer :
      (p : Ptr) (b : SenderBuilder) (m : Memory)
      → m.opts p ≡ some b
      → Answer (sender_build env p m) (build env b)
  unfolding sender_build
  sender_build-Answer p b m h = elim (Option-cases (build env b)) [
    | inl is ↦ rw (h, is) tt
    | inr (r, is) ↦ elim (Result-cases r) [
      | inl (s, good) ↦ rw (h, is, good) (rw self refl)
      | inr (e, bad) ↦ rw (h, is, bad) (rw self refl)
    ]
  ]

  and_on-Answer :
      (p : Ptr) (r : Run (Outcome (Unit {0}))) (spec : Result SenderBuilder)
      → After p r spec
      → Answer (and_on r (λ _. sender_build env p)) (chained env spec)
  and_on-Answer p (returned (done _) m) (ok b) h = sender_build-Answer p b m h
  and_on-Answer p (returned (done _) m) (err e) h = absurd h
  and_on-Answer p (returned (failed q) m) (ok b) h = absurd h
  and_on-Answer p (returned (failed q) m) (err e) h = h.0
  and_on-Answer p (Run.thrown e m) spec h = absurd h
  and_on-Answer p aborted spec h = absurd h
  and_on-Answer p Run.fault spec h = absurd h

  -- A program that sets options one after the other until a call fails, and builds a sender from
  -- them, gets what the chain of setters and `build` of the Rust library give: the sender, an error
  -- object with the error of the first that fails, or the panic of `build`.
  pub configured-chained :
      (cs : List OptsCall) (p : Ptr) (b : SenderBuilder) (m : Memory)
      → m.opts p ≡ some b
      → Answer
          (configured (library x n env) cs p m)
          (chained env (apply_all env.opens (changes cs) b))
  configured-chained cs p b m h =
      and_on-Answer p (calls (library x n env) cs p m) (apply_all env.opens (changes cs) b)
        (calls-apply_all cs p b m h)
