-- ===== src/Connection/Handshake.antt =====
-- The whole of `Connection::authenticate` of mod.rs.
use c_questdb_client.Base.{
  length, ◌<◌, arith, length-append, sym, ◌≡◌, ◌⊎◌, inl, inr, refl, false, Option, none, some, List,
  [], ◌∷◌, ◌++◌, map, any, append_assoc, append-nil, ◌==◌, Bool-cases, Option-cases, ℕ, ap, ◌∙◌,
  true,
}
use c_questdb_client.Error.{
  Error, error, sign_failed, Result, ok, err, auth_error, socket_error, Result-cases,
}
use c_questdb_client.Text.{Bytes, bytes}
use c_questdb_client.Connection.{
  Crates, EcdsaAuthParams, Connection, newline, write_all, read_challenge, parse_key_pair,
  send_key_id, authenticate, and_then, signed, M, ◌>>=M◌, lift, accepted,
}
use c_questdb_client.Connection.Keys.{IsPublicKey, parse_public_key-IsPublicKey}
use c_questdb_client.Connection.{parse_public_key}
use c_questdb_client.Connection.{read_until}
use c_questdb_client.Connection.Authenticate.{
  read_until-line, OneLine, line_of, bytes-OneLine, IsChallenge, read_challenge-IsChallenge, Wrote,
  write_all-Wrote,
}

module _ {KeyPair : Type 0} (k : Crates KeyPair) (arriving : List (Option ℕ))
    (auth : EcdsaAuthParams) where
  -- Two lines are sent: the key id, which `read_until` reads again, and the signature of the first
  -- line that arrives.
  pub record Accepted (sent : Bytes) : Type 0 where
    pub pair : KeyPair
    pub challenge : Bytes
    pub rest : List (Option ℕ)
    pub signature : Bytes
    pub parsed : parse_key_pair k auth ≡ ok pair
    pub arrived : arriving ≡ map some challenge ++ some newline ∷ rest
    pub one_line : OneLine challenge
    pub signs : k.sign pair challenge ≡ some signature
    pub lines : sent ≡ line_of (bytes auth.key_id) ++ line_of (k.encode_string signature)
    pub first : OneLine (bytes auth.key_id)
    pub second : OneLine (k.encode_string signature)
    pub read : read_until newline (map some sent) ≡ some (line_of (bytes auth.key_id))

  -- Nothing but the beginning of such lines is sent.
  abbrev pub IsBeginning : Bytes → Type 0
  IsBeginning sent =
      (signature : Bytes) × (rest : Bytes) × (sent ++ rest
        ≡ line_of (bytes auth.key_id) ++ line_of (k.encode_string signature))

  abbrev pub IsRefused : Error → Type 0
  IsRefused e = (e.code ≡ auth_error) ⊎ (e.code ≡ socket_error)

  -- Why an authentication fails: for its parameters, for want of an answer or a signature, or
  -- because the connection takes too little.
  pub data Cause (c : Connection) (e : Error) : Type 0 where
    newline_in_id : any (λ c. c == newline) auth.key_id ≡ true → Cause c e
    bad_keys : parse_key_pair k auth ≡ err e → Cause c e
    no_room_for_id : c.room < length (line_of (bytes auth.key_id)) → Cause c e
    no_answer : read_challenge arriving ≡ err e → Cause c e
    unsigned :
        (pair : KeyPair) (challenge : Bytes)
        → parse_key_pair k auth ≡ ok pair
        → read_challenge arriving ≡ ok challenge
        → k.sign pair challenge ≡ none
        → Cause c e
    no_room :
        (pair : KeyPair) (challenge signature : Bytes)
        → parse_key_pair k auth ≡ ok pair
        → read_challenge arriving ≡ ok challenge
        → k.sign pair challenge ≡ some signature
        → c.room < length (line_of (bytes auth.key_id) ++ line_of (k.encode_string signature))
        → Cause c e

  abbrev pub Handshake : Connection → Result (Unit {0}) × Connection → Type 0
  Handshake c (ok u, c') = (sent : Bytes) × Accepted sent × (c'.sent ≡ c.sent ++ sent)
  Handshake c (err e, c') =
      IsRefused e × Cause c e × (sent : Bytes) × IsBeginning sent × (c'.sent ≡ c.sent ++ sent)

  -- The errors of keys are errors of authentication.
  abbrev IsAuthError : {A : Type 0} → Result A → Type 0
  IsAuthError (ok a) = Unit
  IsAuthError (err e) = e.code ≡ auth_error

  parse_public_key-IsAuthError :
      (r : Result Bytes) → IsPublicKey k auth.pub_key_x auth.pub_key_y r → IsAuthError r
  parse_public_key-IsAuthError (ok key) h = tt
  parse_public_key-IsAuthError (err e) h = h.0

  accepted-IsAuthError : (pair : Option KeyPair) → IsAuthError (accepted k pair)
  accepted-IsAuthError (some pair) = tt
  accepted-IsAuthError none = refl

  parse_key_pair-IsAuthError : IsAuthError (parse_key_pair k auth)
  unfolding parse_key_pair
  parse_key_pair-IsAuthError = elim (Option-cases (k.decode_vec auth.priv_key)) [
    | inl bad ↦ rw bad refl
    | inr (private_key, is) ↦
        let h = parse_public_key-IsPublicKey k auth.pub_key_x auth.pub_key_y in
        elim (Result-cases (parse_public_key k auth.pub_key_x auth.pub_key_y)) [
          | inl (public_key, parsed) ↦
              rw (is, parsed) (accepted-IsAuthError (k.key_pair private_key public_key))
          | inr (e, bad) ↦ rw (is, bad) (let a = parse_public_key-IsAuthError _ h in rw bad at a)
        ]
  ]

  -- What follows in `authenticate` behind the key id, and behind the challenge.
  abbrev answer : KeyPair → (challenge : Bytes) → M (Unit {0})
  answer pair challenge = lift (signed k (k.sign pair challenge)) >>=M λ signature.
      write_all (line_of (k.encode_string signature))

  abbrev challenged : KeyPair → M (Unit {0})
  challenged pair = lift (read_challenge arriving) >>=M λ challenge. answer pair challenge

  -- A connection over which the key id was sent.
  abbrev Named : (c c1 : Connection) → Type 0
  Named c c1 = Wrote (line_of (bytes auth.key_id)) c (ok tt, c1)

  module _ (c : Connection) (pair : KeyPair) (parsed : parse_key_pair k auth ≡ ok pair)
      (clean : any (λ c. c == newline) auth.key_id ≡ false) where
    written :
        (challenge : Bytes) (signature : Bytes) (c1 : Connection)
        (r : Result (Unit {0}) × Connection)
        → read_challenge arriving ≡ ok challenge
        → IsChallenge arriving (ok challenge)
        → k.sign pair challenge ≡ some signature
        → Named c c1
        → Wrote (line_of (k.encode_string signature)) c1 r
        → Handshake c r
    written challenge signature c1 (ok u, c2) is (rest, one, there) signs before h =
        let id = line_of (bytes auth.key_id) in
        let mine = line_of (k.encode_string signature) in
        (
          id ++ mine,
          record {
            pair = pair;
            challenge = challenge;
            rest = rest;
            signature = signature;
            parsed = parsed;
            arrived = there;
            one_line = one;
            signs = signs;
            lines = refl;
            first = bytes-OneLine auth.key_id clean;
            second = k.encode_bytes signature;
            read = read_until-line (bytes auth.key_id) mine (bytes-OneLine auth.key_id clean);
          },
          rw (h.0, before.0) (append_assoc c.sent id mine),
        )
    written challenge signature c1 (err e, c2) is made signs before
          (code, short, (part, missing, whole, h)) =
        let id = line_of (bytes auth.key_id) in
        let mine = line_of (k.encode_string signature) in
        let (sent, left, fits) = before in
        (
          inr code,
          no_room pair challenge signature parsed is signs (omega (arith, length-append id mine)),
          id ++ part,
          (signature, missing, append_assoc id part missing ∙ ap (λ t. id ++ t) whole),
          rw (h, sent) (append_assoc c.sent id part),
        )

    -- An error behind the key id
    stopped :
        (e : Error) (c1 : Connection)
        → IsRefused e
        → Cause c e
        → Named c c1
        → Handshake c (err e, c1)
    stopped e c1 h cause before =
        (h, cause, line_of (bytes auth.key_id), ([], line_of (k.encode_string []), refl), before.0)

    answered :
        (challenge : Bytes) (c1 : Connection)
        → read_challenge arriving ≡ ok challenge
        → IsChallenge arriving (ok challenge)
        → Named c c1
        → Handshake c (answer pair challenge c1)
    answered challenge c1 is made before = elim (Option-cases (k.sign pair challenge)) [
      | inl none_is ↦ rw none_is (
          stopped (error auth_error sign_failed) c1 (inl refl)
            (unsigned pair challenge parsed is none_is) before)
      | inr (signature, signs) ↦
          let w = write_all-Wrote (line_of (k.encode_string signature)) c1 in
          rw signs (written challenge signature c1 _ is made signs before w)
    ]

    after_key :
        (r : Result (Unit {0}) × Connection)
        → Wrote (line_of (bytes auth.key_id)) c r
        → Handshake c (and_then r (λ u. challenged pair))
    after_key (ok u, c1) before =
        let h = read_challenge-IsChallenge arriving in
        elim (Result-cases (read_challenge arriving)) [
          | inl (challenge, is) ↦ rw is (answered challenge c1 is (let a = h in rw is at a) before)
          | inr (e, bad) ↦ rw bad (stopped e c1 (let a = h in rw bad at a) (no_answer bad) before)
        ]
    after_key (err e, c1) (code, short, (part, missing, whole, h)) = (
      inr code,
      no_room_for_id short,
      part,
      (
        [],
        missing ++ line_of (k.encode_string []),
        rw (← append_assoc part missing (line_of (k.encode_string [])), whole) refl,
      ),
      h,
    )

  -- An authentication that succeeds has sent two lines that a reader of lines tells apart: the key
  -- id, and the encoded signature, with the key pair of the parameters, of the first line that
  -- arrives. One that fails has sent the beginning of two such lines, its error is one of
  -- authentication or of the socket, and it has one of these causes: a newline in the key id, keys
  -- that do not parse, no line that arrives, no signature, or a connection that takes too little.
  pub authenticate-Handshake : (c : Connection) → Handshake c (authenticate k arriving auth c)
  unfolding authenticate send_key_id
  authenticate-Handshake c = elim (Bool-cases (any (λ c. c == newline) auth.key_id)) [
    | inl broken ↦
        rw broken (inl refl, newline_in_id broken, [], ([], _, refl), sym (append-nil c.sent))
    | inr clean ↦ elim (Result-cases (parse_key_pair k auth)) [
      | inl (pair, parsed) ↦
          rw (clean, parsed)
            (after_key c pair parsed clean _ (write_all-Wrote (line_of (bytes auth.key_id)) c))
      | inr (e, bad) ↦
          let a = parse_key_pair-IsAuthError in
          rw (clean, bad)
            (inl (rw bad at a), bad_keys bad, [], ([], _, refl), sym (append-nil c.sent))
    ]
  ]
