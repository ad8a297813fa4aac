-- ===== src/Connection/Keys.antt =====
-- The public key that `parse_public_key` of mod.rs makes of its two halves.
use c_questdb_client.Base.{
  ℕ, ◌+◌, ◌-◌, ◌*◌, ◌≡◌, ◌≤◌, ◌<◌, ◌⊎◌, inl, inr, refl, ap, Option, none, some, [], ◌∷◌, ◌++◌,
  length, replicate, length-append, length-replicate, append_assoc, ltb, Bool-cases, Option-cases,
  arith,
}
use c_questdb_client.Error.{Result, ok, err, auth_error}
use c_questdb_client.Text.{Str, Bytes}
use c_questdb_client.Connection.{Crates, resize, parse_public_key}

-- The number that bytes stand for, the most significant first.
abbrev pub value_from : ℕ → Bytes → ℕ
value_from n [] = n
value_from n (b ∷ bs) = value_from (n * 256 + b) bs

abbrev pub value : Bytes → ℕ
value bs = value_from 0 bs

value-zeros : (n : ℕ) (bs : Bytes) → value (replicate n 0 ++ bs) ≡ value bs
value-zeros ℕ.zero bs = refl
value-zeros (ℕ.suc n) bs = value-zeros n bs

resize_empty : (n v : ℕ) → resize [] n v ≡ replicate n v
unfolding resize
resize_empty ℕ.zero v = refl
resize_empty (ℕ.suc n) v = ap (λ t. v ∷ t) (resize_empty n v)

-- Growing a vector pads it.
resize_lem : (bs : Bytes) (n v k : ℕ) → k ≡ length bs + n → resize bs k v ≡ bs ++ replicate n v
unfolding resize
resize_lem [] n v k h = let is : k ≡ n = omega arith in rw is (resize_empty n v)
resize_lem (b ∷ bs) n v ℕ.zero h = absurd (omega arith)
resize_lem (b ∷ bs) n v (ℕ.suc k) h = ap (λ t. b ∷ t) (resize_lem bs n v k (omega arith))

-- A coordinate, padded on the left.
abbrev padded : Bytes → Bytes
padded bs = replicate (32 - length bs) 0 ++ bs

length-padded : (bs : Bytes) → length bs ≤ 32 → length (padded bs) ≡ 32
length-padded bs h =
    let zero : ℕ = 0 in
    omega (
      arith,
      length-append (replicate (32 - length bs) zero) bs,
      length-replicate (32 - length bs) zero,
    )

encoded_lem :
    (x y : Bytes)
    → length x ≤ 32
    → length y ≤ 32
    → resize (resize (4 ∷ []) ((32 - length x) + 1) 0 ++ x) ((32 - length y) + 1 + 32) 0 ++ y
      ≡ 4 ∷ (padded x ++ padded y)
encoded_lem x y hx hy =
    let first : resize (4 ∷ []) ((32 - length x) + 1) 0 ≡ 4 ∷ replicate (32 - length x) 0 =
      resize_lem (4 ∷ []) (32 - length x) 0 _ (omega arith) in
    let second : resize (4 ∷ padded x) ((32 - length y) + 1 + 32) 0
        ≡ 4 ∷ padded x ++ replicate (32 - length y) 0 =
      resize_lem (4 ∷ padded x) (32 - length y) 0 _ (omega (arith, length-padded x hx)) in
    rw (first, second) (ap (λ t. 4 ∷ t) (append_assoc (padded x) (replicate (32 - length y) 0) y))

module _ {KeyPair : Type 0} (k : Crates KeyPair) where
  -- An uncompressed point: the byte 4, then 32 bytes for each coordinate, which stand for the numbers
  -- that the two halves decode to.
  pub record IsPoint (pub_key_x pub_key_y : Str) (key : Bytes) : Type 0 where
    pub decoded_x : Bytes
    pub decoded_y : Bytes
    pub first : Bytes
    pub second : Bytes
    pub from_x : k.decode_vec pub_key_x ≡ some decoded_x
    pub from_y : k.decode_vec pub_key_y ≡ some decoded_y
    pub whole : key ≡ 4 ∷ (first ++ second)
    pub first_length : length first ≡ 32
    pub second_length : length second ≡ 32
    pub first_value : value first ≡ value decoded_x
    pub second_value : value second ≡ value decoded_y

  -- What makes a half of no use: it cannot be decoded, or is too long.
  abbrev pub IsBadHalf : Option Bytes → Type 0
  IsBadHalf none = Unit
  IsBadHalf (some bs) = 32 < length bs

  abbrev pub IsPublicKey : (pub_key_x pub_key_y : Str) → Result Bytes → Type 0
  IsPublicKey pub_key_x pub_key_y (ok key) = IsPoint pub_key_x pub_key_y key
  IsPublicKey pub_key_x pub_key_y (err e) =
      (e.code ≡ auth_error)
      × (IsBadHalf (k.decode_vec pub_key_x) ⊎ IsBadHalf (k.decode_vec pub_key_y))

  -- Two halves that decode to at most 32 bytes each give an uncompressed point with their numbers as
  -- its coordinates; otherwise the error is one of authentication, and one of the halves cannot be
  -- decoded or is longer.
  pub parse_public_key-IsPublicKey :
      (pub_key_x pub_key_y : Str)
      → IsPublicKey pub_key_x pub_key_y (parse_public_key k pub_key_x pub_key_y)
  unfolding parse_public_key
  parse_public_key-IsPublicKey pub_key_x pub_key_y = elim (Option-cases (k.decode_vec pub_key_x)) [
    | inl bad ↦ rw bad (refl, inl (rw bad tt))
    | inr (x, is_x) ↦ elim (Option-cases (k.decode_vec pub_key_y)) [
      | inl bad ↦ rw (is_x, bad) (refl, inr (rw bad tt))
      | inr (y, is_y) ↦ elim (Bool-cases (ltb 32 (length x))) [
        | inl long ↦ rw (is_x, is_y, long) (refl, inl (rw is_x (ground arith)))
        | inr fits ↦ elim (Bool-cases (ltb 32 (length y))) [
          | inl long ↦ rw (is_x, is_y, fits, long) (refl, inr (rw is_y (ground arith)))
          | inr fits_y ↦
              let hx : length x ≤ 32 = ground arith in
              let hy : length y ≤ 32 = ground arith in
              rw (is_x, is_y, fits, fits_y)
                (record {
                  decoded_x = x;
                  decoded_y = y;
                  first = padded x;
                  second = padded y;
                  from_x = is_x;
                  from_y = is_y;
                  whole = encoded_lem x y hx hy;
                  first_length = length-padded x hx;
                  second_length = length-padded y hy;
                  first_value = value-zeros (32 - length x) x;
                  second_value = value-zeros (32 - length y) y;
                })
        ]
      ]
    ]
  ]
