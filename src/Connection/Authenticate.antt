-- ===== src/Connection/Authenticate.antt =====
-- The handshake of `Connection::authenticate` of mod.rs: what is sent, and which answer is signed.
use c_questdb_client.Base.{
  ◌-◌, ◌<◌, ◌≤◌, ℕ, ◌≡◌, ◌≢◌, ◌⊎◌, inl, inr, refl, ap, true, false, Option, none, some, List, [],
  ◌∷◌, ◌++◌, map, length, take, flat_map, any, All, All-append, ◌==◌, leb, Bool-cases, arith,
}
use c_questdb_client.Error.{Result, ok, err, auth_error, socket_error}
use c_questdb_client.Text.{Str, Bytes, bytes, encode_char}
use c_questdb_client.Connection.{
  Connection, newline, write_all, read_until, last, pop, read_challenge, challenge_in, cons,
}

-- Text without the end of a line.
abbrev pub OneLine : Bytes → Type 0
OneLine = All (λ c. c ≢ newline)

abbrev pub line_of : Bytes → Bytes
line_of s = s ++ newline ∷ []

char-OneLine : (c : ℕ) → (c == newline) ≡ false → OneLine (encode_char c)
char-OneLine c h = ground arith

pub bytes-OneLine : (s : Str) → any (λ c. c == newline) s ≡ false → OneLine (bytes s)
unfolding bytes
bytes-OneLine [] h = tt
bytes-OneLine (c ∷ s) h =
    All-append (λ c. c ≢ newline) (encode_char c) (flat_map encode_char s)
      (char-OneLine c (ground arith)) (bytes-OneLine s (ground arith))

-- What `read_until` finds: a line behind which more may arrive, all that arrives, or an error.
abbrev Found : List (Option ℕ) → Option Bytes → Type 0
Found arriving none = Unit
Found arriving (some buf) =
    ((line : Bytes) × (rest : List (Option ℕ)) × (buf ≡ line_of line)
      × OneLine line
      × (arriving ≡ map some line ++ some newline ∷ rest))
    ⊎ OneLine buf

cons-Found :
    (b : ℕ) (arriving : List (Option ℕ)) (found : Option Bytes)
    → b ≢ newline
    → Found arriving found
    → Found (some b ∷ arriving) (cons b found)
cons-Found b arriving none ne h = tt
cons-Found b arriving (some buf) ne (inl (line, rest, is, one, there)) =
    inl (b ∷ line, rest, ap (λ t. b ∷ t) is, (ne, one), ap (λ t. some b ∷ t) there)
cons-Found b arriving (some buf) ne (inr one) = inr (ne, one)

read_until-Found : (arriving : List (Option ℕ)) → Found arriving (read_until newline arriving)
unfolding read_until
read_until-Found [] = inr tt
read_until-Found (none ∷ arriving) = tt
read_until-Found (some b ∷ arriving) = elim (Bool-cases (b == newline)) [
  | inl is ↦
      let there : b ≡ newline = ground arith in rw (is, there) (inl ([], arriving, refl, tt, refl))
  | inr ne ↦
      let far : b ≢ newline = ground arith in
      rw ne (cons-Found b arriving (read_until newline arriving) far (read_until-Found arriving))
]

-- A line is read as it was written, whatever stands behind it.
pub read_until-line :
    (line t : Bytes)
    → OneLine line
    → read_until newline (map some (line_of line ++ t)) ≡ some (line_of line)
unfolding read_until
read_until-line [] t h = refl
read_until-line (b ∷ line) t (ne, h) =
    let far : (b == newline) ≡ false = ground arith in rw (far, read_until-line line t h) refl

last-line : (line : Bytes) → last (line_of line) ≡ newline
unfolding last
last-line [] = refl
last-line (b ∷ []) = refl
last-line (b ∷ c ∷ line) = last-line (c ∷ line)

pop-line : (line : Bytes) → pop (line_of line) ≡ line
unfolding pop
pop-line [] = refl
pop-line (b ∷ []) = refl
pop-line (b ∷ c ∷ line) = ap (λ t. b ∷ t) (pop-line (c ∷ line))

last-OneLine : (buf : Bytes) → OneLine buf → (last buf == newline) ≡ false
unfolding last
last-OneLine [] h = refl
last-OneLine (b ∷ []) (ne, h) = ground arith
last-OneLine (b ∷ c ∷ buf) (ne, h) = last-OneLine (c ∷ buf) h

-- A part of a text, and what is missing of it.
take_part : (n : ℕ) (s : Bytes) → (rest : Bytes) × (take n s ++ rest ≡ s)
take_part ℕ.zero s = (s, refl)
take_part (ℕ.suc n) [] = ([], refl)
take_part (ℕ.suc n) (b ∷ s) = let (rest, is) = take_part n s in (rest, ap (λ t. b ∷ t) is)

-- What `read_challenge` gives: the first line that arrives, or an error.
abbrev pub IsChallenge : List (Option ℕ) → Result Bytes → Type 0
IsChallenge arriving (ok challenge) =
    (rest : List (Option ℕ)) × OneLine challenge
    × (arriving ≡ map some challenge ++ some newline ∷ rest)
IsChallenge arriving (err e) = (e.code ≡ auth_error) ⊎ (e.code ≡ socket_error)

challenge_in-IsChallenge :
    (arriving : List (Option ℕ)) (found : Option Bytes)
    → Found arriving found
    → IsChallenge arriving (challenge_in found)
challenge_in-IsChallenge arriving none h = inr refl
challenge_in-IsChallenge arriving (some buf) (inl (line, rest, is, one, there)) =
    let ends : (last (line_of line) == newline) ≡ true = rw last-line refl in
    rw (is, ends, pop-line) (rest, one, there)
challenge_in-IsChallenge arriving (some []) (inr one) = rw (last-OneLine [] tt) (inl refl)
challenge_in-IsChallenge arriving (some (b ∷ buf)) (inr one) =
    rw (last-OneLine (b ∷ buf) one) (inl refl)

pub read_challenge-IsChallenge :
    (arriving : List (Option ℕ)) → IsChallenge arriving (read_challenge arriving)
unfolding read_challenge
read_challenge-IsChallenge arriving =
    challenge_in-IsChallenge arriving (read_until newline arriving) (read_until-Found arriving)

-- How a write ends: all of it is sent, or a part, with an error of the socket.
abbrev pub Wrote : Bytes → Connection → Result (Unit {0}) × Connection → Type 0
Wrote buf c (ok u, c') =
    (c'.sent ≡ c.sent ++ buf) × (c'.room ≡ c.room - length buf) × (length buf ≤ c.room)
Wrote buf c (err e, c') =
    (e.code ≡ socket_error)
    × (c.room < length buf)
    × ((part : Bytes) × (rest : Bytes) × (part ++ rest ≡ buf) × (c'.sent ≡ c.sent ++ part))

pub write_all-Wrote : (buf : Bytes) (c : Connection) → Wrote buf c (write_all buf c)
unfolding write_all
write_all-Wrote buf c = elim (Bool-cases (leb (length buf) c.room)) [
  | inl fits ↦ rw fits (refl, refl, ground arith)
  | inr short ↦
      let (rest, is) = take_part c.room buf in
      rw short (refl, ground arith, (take c.room buf, rest, is, refl))
]
