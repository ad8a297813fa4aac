-- ===== src/Connection.antt =====
-- `Connection::authenticate` of questdb-rs/src/ingress/mod.rs, with the functions that it calls.
-- The crates base64ct and ring are parameters.
pub mod Keys
pub mod Authenticate
pub mod Handshake
use c_questdb_client.Base.{
  ℕ, ◌+◌, ◌-◌, ◌≢◌, Option, none, some, List, [], ◌∷◌, ◌++◌, length, take, any, All, ◌==◌, ltb, leb,
  not, if◌then◌else◌,
}
use c_questdb_client.Error.{
  Result, ok, err, error, auth_error, socket_error, bad_key_id, undecodable_key, key_x_too_long,
  key_y_too_long, key_rejected, no_challenge, sign_failed, io_failed, incomplete_challenge, ◌>>=◌,
}
use c_questdb_client.Builder.Auth.{AuthParams, ecdsa, basic, bearer}
use c_questdb_client.Text.{Str, Bytes, bytes}

abbrev pub newline : ℕ
newline = 0x0a

-- `Base64UrlUnpadded::decode_vec`, `Base64::encode_string`, which writes no newline, and
-- `EcdsaKeyPair` with its constructor and `sign`.
pub record Crates (KeyPair : Type 0) : Type 0 where
  pub decode_vec : Str → Option Bytes
  pub encode_string : Bytes → Bytes
  pub encode_bytes : (s : Bytes) → All (λ c. c ≢ newline) (encode_string s)
  pub key_pair : (private_key public_key : Bytes) → Option KeyPair
  pub sign : KeyPair → (challenge : Bytes) → Option Bytes

-- `EcdsaAuthParams`
pub record EcdsaAuthParams : Type 0 where
  pub key_id : Str
  pub priv_key : Str
  pub pub_key_x : Str
  pub pub_key_y : Str

-- A connection takes `room` more bytes before a write fails.
pub record Connection : Type 0 where
  pub room : ℕ
  pub sent : Bytes

abbrev pub M : Type 0 → Type 0
M A = Connection → Result A × Connection

module _ {A B : Type 0} where
  abbrev pub and_then : Result A × Connection → (A → M B) → Result B × Connection
  and_then (ok a, c) k = k a c
  and_then (err e, c) k = (err e, c)

module _ {A B : Type 0} where
  infixl 5 ◌>>=M◌ ◌>>M◌
  abbrev pub ◌>>=M◌ : M A → (A → M B) → M B
  m >>=M k = λ c. and_then (m c) k

  abbrev pub ◌>>M◌ : M A → M B → M B
  m >>M k = m >>=M λ _. k

abbrev pub lift : {A : Type 0} → Result A → M A
lift r c = (r, c)

-- `Vec::resize`
unfoldable pub resize : Bytes → ℕ → (value : ℕ) → Bytes
resize v ℕ.zero value = []
resize [] (ℕ.suc n) value = value ∷ resize [] n value
resize (b ∷ v) (ℕ.suc n) value = b ∷ resize v n value

-- `write_all`: a write that fails may have sent a part.
unfoldable pub write_all : Bytes → M (Unit {0})
write_all buf c =
    if leb (length buf) c.room
    then (ok tt, record c { room = c.room - length buf; sent = c.sent ++ buf })
    else (
      err (error socket_error io_failed),
      record c { room = 0; sent = c.sent ++ take c.room buf },
    )

unfoldable pub send_key_id : (key_id : Str) → M (Unit {0})
unfolding write_all
send_key_id key_id = write_all (bytes key_id ++ newline ∷ [])

abbrev pub cons : ℕ → Option Bytes → Option Bytes
cons b (some bs) = some (b ∷ bs)
cons b none = none

-- `read_until`, of what arrives: bytes, or `none` for an error of the socket.
unfoldable pub read_until : (delim : ℕ) → List (Option ℕ) → Option Bytes
read_until delim [] = some []
read_until delim (none ∷ arriving) = none
read_until delim (some b ∷ arriving) =
    let rest = read_until delim arriving in if b == delim then some (b ∷ []) else cons b rest

-- `last().copied().unwrap_or(b'\0')` and `pop`
unfoldable pub last : Bytes → ℕ
last [] = 0
last (b ∷ []) = b
last (b ∷ c ∷ bs) = last (c ∷ bs)

unfoldable pub pop : Bytes → Bytes
pop [] = []
pop (b ∷ []) = []
pop (b ∷ c ∷ bs) = b ∷ pop (c ∷ bs)

abbrev incomplete : Bytes → Result Bytes
incomplete [] = err (error auth_error no_challenge)
incomplete (b ∷ bs) = err (error auth_error (incomplete_challenge (b ∷ bs)))

abbrev pub challenge_in : Option Bytes → Result Bytes
challenge_in none = err (error socket_error io_failed)
challenge_in (some buf) = if not (last buf == newline) then incomplete buf else ok (pop buf)

-- Nothing is read behind the challenge.
unfoldable pub read_challenge : (arriving : List (Option ℕ)) → Result Bytes
unfolding read_until last pop
read_challenge arriving = challenge_in (read_until newline arriving)

module _ {KeyPair : Type 0} (k : Crates KeyPair) where
  abbrev pub decoded : Str → Option Bytes → Result Bytes
  decoded buf (some bs) = ok bs
  decoded buf none = err (error auth_error (undecodable_key buf))

  abbrev pub b64_decode : Str → Result Bytes
  b64_decode buf = decoded buf (k.decode_vec buf)

  -- The lengths are subtracted behind their checks.
  abbrev pub encoded : (pub_key_x pub_key_y : Bytes) → Result Bytes
  encoded pub_key_x pub_key_y =
      if ltb 32 (length pub_key_x)
      then err (error auth_error key_x_too_long)
      else if ltb 32 (length pub_key_y)
      then err (error auth_error key_y_too_long)
      else ok (
          resize (resize (4 ∷ []) ((32 - length pub_key_x) + 1) 0 ++ pub_key_x)
            ((32 - length pub_key_y) + 1 + 32) 0
          ++ pub_key_y)

  unfoldable pub parse_public_key : (pub_key_x pub_key_y : Str) → Result Bytes
  unfolding resize
  parse_public_key pub_key_x pub_key_y = do
    x ← b64_decode pub_key_x
    y ← b64_decode pub_key_y
    encoded x y

  abbrev pub accepted : Option KeyPair → Result KeyPair
  accepted (some pair) = ok pair
  accepted none = err (error auth_error key_rejected)

  unfoldable pub parse_key_pair : EcdsaAuthParams → Result KeyPair
  unfolding parse_public_key
  parse_key_pair auth = do
    private_key ← b64_decode auth.priv_key
    public_key ← parse_public_key auth.pub_key_x auth.pub_key_y
    accepted (k.key_pair private_key public_key)

  abbrev pub signed : Option Bytes → Result Bytes
  signed (some signature) = ok signature
  signed none = err (error auth_error sign_failed)

  unfoldable pub authenticate : (arriving : List (Option ℕ)) → EcdsaAuthParams → M (Unit {0})
  unfolding parse_key_pair send_key_id read_challenge write_all
  authenticate arriving auth =
      if any (λ c. c == newline) auth.key_id
      then lift (err (error auth_error (bad_key_id auth.key_id)))
      else lift (parse_key_pair auth) >>=M λ pair. send_key_id auth.key_id >>=M λ _.
          lift (read_challenge arriving) >>=M λ challenge.
          lift (signed (k.sign pair challenge)) >>=M λ signature.
          write_all (k.encode_string signature ++ newline ∷ [])

  abbrev authenticated : (arriving : List (Option ℕ)) → Option AuthParams → M (Unit {0})
  authenticated arriving (some (ecdsa key_id priv_key pub_key_x pub_key_y)) =
      authenticate arriving (record {
        key_id = key_id;
        priv_key = priv_key;
        pub_key_x = pub_key_x;
        pub_key_y = pub_key_y;
      })
  authenticated arriving (some (basic username password)) = lift (ok tt)
  authenticated arriving (some (bearer token)) = lift (ok tt)
  authenticated arriving none = lift (ok tt)

  -- The end of `connect_tcp`, with the connection that it opens and what arrives over it.
  unfoldable pub connect_tcp :
      Result Connection → (arriving : List (Option ℕ)) → Option AuthParams → Result Connection
  unfolding authenticate
  connect_tcp opened arriving auth = do
    conn ← opened
    u ← (authenticated arriving auth conn).0
    ok (authenticated arriving auth conn).1
