-- ===== src/Builder/Conf/Valid.antt =====
-- What a configuration string makes of a builder.
use c_questdb_client.Base.{
  ◌≡◌, refl, sym, ◌⊎◌, inl, inr, Bool, true, not, List, [], ◌∷◌, ◌++◌, if◌then◌else◌, arith, Option,
  none, some, Option-cases, Bool-cases, codes, same_text, same_text_sound, any, ◌==◌,
}
use c_questdb_client.Error.{Result, ok, err, ◌>>◌}
use c_questdb_client.Text.{Str}
use c_questdb_client.Builder
use c_questdb_client.Builder.{SenderBuilder, Protocol, rust_agent, is_tcpx}
use c_questdb_client.Builder.Build.{Environment, Conf}
use c_questdb_client.Builder.Conf.{
  from_parsed, from_conf, from_schema, from_parse, address, get, validate_auto_flush_params,
  split_once, default_port,
}
use c_questdb_client.Builder.Conf.Asks.{Asked}
use c_questdb_client.Builder.Conf.Asks.Followed.{set_params-Asked}
use c_questdb_client.Builder.Setters.Valid.{Change, apply_all, ok_inv, ok-injective}

abbrev no_colon : Str → Bool
no_colon s = not (any (λ c. c == b':') s)

-- The host and the port of an address: what stands before and behind its first colon, or without one
-- the address, and 9009 for TCP and 9000 for HTTP.
abbrev pub Target : Protocol → (addr host port : Str) → Type 0
Target p addr host port =
    ((no_colon host ≡ true) × (addr ≡ host ++ b':' ∷ port))
    ⊎ ((no_colon addr ≡ true)
        × (host ≡ addr)
        × (port ≡ (if is_tcpx p then codes "9009" else codes "9000")))

abbrev pub schema : Protocol → Str
schema Builder.tcp = codes "tcp"
schema Builder.tcps = codes "tcps"
schema Builder.http = codes "http"
schema Builder.https = codes "https"

-- What a parsed configuration string says of a builder.
pub record Configured (opens : Str → Bool) (conf : Conf) (b : SenderBuilder) : Type 0 where
  pub protocol : Protocol
  pub addr : Str
  pub host : Str
  pub port : Str
  pub changes : List Change
  pub service : conf.service ≡ schema protocol
  pub given : get conf.params (codes "addr") ≡ some addr
  pub target : Target protocol addr host port
  pub auto_flush :
      (get conf.params (codes "auto_flush") ≡ none)
      ⊎ (get conf.params (codes "auto_flush") ≡ some (codes "off"))
  pub no_rows : get conf.params (codes "auto_flush_rows") ≡ none
  pub no_bytes : get conf.params (codes "auto_flush_bytes") ≡ none
  pub asked : Asked conf.params changes
  pub set : apply_all opens changes (Builder.new rust_agent protocol host port) ≡ ok b

then_inv :
    {A : Type 0} (r : Result (Unit {0})) (s : Result A) (b : A)
    → (r >> s) ≡ ok b
    → (r ≡ ok tt) × (s ≡ ok b)
then_inv (ok u) s b h = (refl, h)
then_inv (err e) s b h = absurd (ground arith)

from_schema-schema : (s : Str) (p : Protocol) → from_schema s ≡ ok p → s ≡ schema p
unfolding from_schema
from_schema-schema s p h = elim (Bool-cases (same_text s (codes "tcp"))) [
  | inl is ↦ let e : p ≡ Builder.tcp = ground arith in rw e (same_text_sound s _ is)
  | inr n₁ ↦ elim (Bool-cases (same_text s (codes "tcps"))) [
    | inl is ↦ let e : p ≡ Builder.tcps = ground arith in rw e (same_text_sound s _ is)
    | inr n₂ ↦ elim (Bool-cases (same_text s (codes "http"))) [
      | inl is ↦ let e : p ≡ Builder.http = ground arith in rw e (same_text_sound s _ is)
      | inr n₃ ↦ elim (Bool-cases (same_text s (codes "https"))) [
        | inl is ↦ let e : p ≡ Builder.https = ground arith in rw e (same_text_sound s _ is)
        | inr n₄ ↦ absurd (ground arith)
      ]
    ]
  ]
]

-- What `split_once` says of a string.
abbrev Split : Str → Option (Str × Str) → Type 0
Split s none = no_colon s ≡ true
Split s (some hp) = (no_colon hp.0 ≡ true) × (s ≡ hp.0 ++ b':' ∷ hp.1)

split_once-Split : (s : Str) → Split s (split_once s)
unfolding split_once
split_once-Split [] = refl
split_once-Split (c ∷ cs) = elim (Bool-cases (c == b':')) [
  | inl colon ↦ let is : c ≡ b':' = ground arith in rw is (refl, refl)
  | inr other ↦ elim (Option-cases (split_once cs)) [
    | inl none_is ↦
        let rest : Split cs none = rw none_is at (split_once-Split cs) in
        rw (other, none_is) (ground (arith, rest))
    | inr (hp, is) ↦
        let rest : Split cs (some hp) = rw is at (split_once-Split cs) in
        rw (other, is) (ground (arith, rest.0), ground (arith, rest.1))
  ]
]

port-default : (p : Protocol) → default_port p ≡ (if is_tcpx p then codes "9009" else codes "9000")
port-default Builder.tcp = refl
port-default Builder.tcps = refl
port-default Builder.http = refl
port-default Builder.https = refl

module _ (env : Environment) where
  address-Target :
      (p : Protocol) (o : Option Str) (hp : Str × Str)
      → address env p o ≡ ok hp
      → (addr : Str) × (o ≡ some addr) × Target p addr hp.0 hp.1
  unfolding address
  address-Target p none hp h = absurd (ground arith)
  address-Target p (some addr) hp h = elim (Option-cases (split_once addr)) [
    | inl none_is ↦
        let whole : Split addr none = rw none_is at (split_once-Split addr) in
        let is : (addr, default_port p) ≡ hp = ok-injective (rw (address, none_is) at h) in
        (addr, refl, rw (sym is) (inr (whole, refl, port-default p)))
    | inr (parts, there) ↦
        let split : Split addr (some parts) = rw there at (split_once-Split addr) in
        let is : parts ≡ hp = ok-injective (rw (address, there) at h) in
        (addr, refl, rw (sym is) (inl split))
  ]

  flush_off :
      (params : List (Str × Str))
      → validate_auto_flush_params params ≡ ok tt
      → ((get params (codes "auto_flush") ≡ none)
          ⊎ (get params (codes "auto_flush") ≡ some (codes "off")))
        × (get params (codes "auto_flush_rows") ≡ none)
        × (get params (codes "auto_flush_bytes") ≡ none)
  unfolding validate_auto_flush_params
  flush_off params h = (
    elim (Option-cases (get params (codes "auto_flush"))) [
      | inl absent ↦ inl absent
      | inr (v, is) ↦ elim (Bool-cases (same_text v (codes "off"))) [
        | inl off ↦ inr (rw (is, same_text_sound v _ off) refl)
        | inr other ↦ absurd (ground arith)
      ]
    ],
    ground arith,
    ground arith,
  )

  from_parsed-Configured :
      (conf : Conf) (b : SenderBuilder) → from_parsed env conf ≡ ok b → Configured env.opens conf b
  unfolding from_parsed
  from_parsed-Configured conf b h =
      let (p, is, h₁) = ok_inv (from_schema conf.service) _ b h in
      let (hp, is₂, h₂) = ok_inv (address env p (get conf.params (codes "addr"))) _ b h₁ in
      let (valid, h₃) = then_inv (validate_auto_flush_params conf.params) _ b h₂ in
      let (off, rows, bytes) = flush_off conf.params valid in
      let (addr, given, target) = address-Target p (get conf.params (codes "addr")) hp is₂ in
      let (cs, asked, done) = set_params-Asked env conf.params _ b h₃ in
      record {
        protocol = p;
        addr = addr;
        host = hp.0;
        port = hp.1;
        changes = cs;
        service = from_schema-schema conf.service p is;
        given = given;
        target = target;
        auto_flush = off;
        no_rows = rows;
        no_bytes = bytes;
        asked = asked;
        set = done;
      }

  -- A configuration string that gives a builder is one that the parser accepts. Its service is the
  -- name of the builder's protocol; its `addr` is the host and the port around the first colon, or
  -- the host, with port 9009 for TCP and 9000 for HTTP; `auto_flush` is absent or "off", and
  -- `auto_flush_rows` and `auto_flush_bytes` are absent. The builder is a new one of this protocol,
  -- host and port on which the setters that the parameters name have been called, with their values
  -- and in their order, and have all succeeded; a key that is unknown calls none, and
  -- `init_buf_size` and `tls_roots_password` are not there.
  pub from_conf-Configured :
      (s : Str) (b : SenderBuilder)
      → from_conf env s ≡ ok b
      → (conf : Conf) × (env.parse_conf_str s ≡ some conf) × Configured env.opens conf b
  unfolding from_conf from_parse
  from_conf-Configured s b h = elim (Option-cases (env.parse_conf_str s)) [
    | inl none_is ↦ absurd (ground arith)
    | inr (conf, is) ↦ (conf, is, from_parsed-Configured conf b (rw is at h))
  ]
