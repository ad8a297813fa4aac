-- ===== src/Name/TableName.antt =====
-- `TableName::new` of questdb-rs/src/ingress/mod.rs, and what it accepts.
use c_questdb_client.Base.{
  ℕ, ◌+◌, ◌-◌, ◌≤◌, ◌≡◌, refl, Bool, true, false, not, ◌&&◌, ◌||◌, List, [], ◌∷◌, ltb, ◌==◌,
  if◌then◌else◌, any, length, arith,
}
use c_questdb_client.Error.{
  Result, ok, err, error, is_ok, invalid_name, table_name_empty, invalid_dot, table_name_char,
  table_name_bom, ◌>>◌,
}
use c_questdb_client.Text.{Str, len, length-le-len}

pub record TableName : Type 0 where
  pub name : Str

abbrev pub dot : ℕ
dot = b'.'

abbrev pub bom : ℕ
bom = 0xfeff

-- The characters of the `match` arm that refuses a character.
abbrev forbidden_chars : List ℕ
forbidden_chars =
    0x3f ∷ 0x2c ∷ 0x27 ∷ 0x22 ∷ 0x5c ∷ 0x2f ∷ 0x3a ∷ 0x29 ∷ 0x28 ∷ 0x2b ∷ 0x2a ∷ 0x25 ∷ 0x7e ∷ 0x0d
    ∷ 0x0a ∷ 0 ∷ 1 ∷ 2 ∷ 3 ∷ 4 ∷ 5 ∷ 6 ∷ 7 ∷ 8 ∷ 9 ∷ 0x0b ∷ 0x0c ∷ 0x0e ∷ 0x0f ∷ 0x7f ∷ []

is_forbidden : ℕ → Bool
is_forbidden c = any (λ k. c == k) forbidden_chars

-- The loop over `name.chars().enumerate()`; `prev` is the character before.
check_chars : Str → (index prev : ℕ) → Str → Result (Unit {0})
check_chars name index prev [] = ok tt
check_chars name index prev (c ∷ cs) =
    let rest = check_chars name (index + 1) c cs in
    if c == dot
    then (if index == 0 || index == len name - 1 || prev == dot
        then err (error invalid_name (invalid_dot name index))
        else rest)
    else if is_forbidden c
    then err (error invalid_name (table_name_char name c index))
    else if c == bom
    then err (error invalid_name (table_name_bom name index))
    else rest

unfoldable pub new : Str → Result TableName
unfolding check_chars is_forbidden
new [] = err (error invalid_name table_name_empty)
new (c ∷ cs) = check_chars (c ∷ cs) 0 0 (c ∷ cs) >> ok (record { name = c ∷ cs })

-- `new_unchecked`
abbrev pub new_unchecked : Str → TableName
new_unchecked s = record { name = s }

-- A character that a table name may hold; dots have rules of their own.
unfoldable pub is_table_char : ℕ → Bool
unfolding is_forbidden
is_table_char c = not (is_forbidden c) && not (c == bom)

unfoldable pub all_table_chars : Str → Bool
all_table_chars [] = true
all_table_chars (c ∷ cs) = is_table_char c && all_table_chars cs

-- No dot stands behind a dot, where `prev` is the character before the string.
unfoldable pub no_double_dot : ℕ → Str → Bool
no_double_dot prev [] = true
no_double_dot prev (c ∷ cs) = not (c == dot && prev == dot) && no_double_dot c cs

unfoldable pub ends_with_dot : Str → Bool
ends_with_dot [] = false
ends_with_dot (c ∷ []) = c == dot
ends_with_dot (c ∷ d ∷ cs) = ends_with_dot (d ∷ cs)

forbidden_not_dot : (c : ℕ) → c ≡ dot → is_table_char c ≡ true
unfolding is_table_char
forbidden_not_dot c h = rw h refl

char_cases : (c : ℕ) → is_table_char c ≡ (not (is_forbidden c) && not (c == bom))
unfolding is_table_char
char_cases c = refl

check_chars-is_ok :
    (name : Str) (index prev : ℕ) (cs : Str)
    → index + length cs ≤ len name
    → is_ok (check_chars name index prev cs) ≡ (
        all_table_chars cs
        && no_double_dot (if index == 0 then dot else prev) cs
        && not (index + length cs == len name && ends_with_dot cs))
unfolding check_chars all_table_chars no_double_dot ends_with_dot
check_chars-is_ok name index prev [] h = ground arith
check_chars-is_ok name index prev (c ∷ []) h = ground (arith, forbidden_not_dot c, char_cases c)
check_chars-is_ok name index prev (c ∷ d ∷ cs) h =
    ground (arith, forbidden_not_dot c, char_cases c, check_chars-is_ok name (index + 1) c (d ∷ cs))

-- `new` accepts a string exactly when it is not empty, holds allowed characters only, neither starts
-- with a dot nor holds two dots in a row, and, if all its characters are of one byte, does not end
-- with a dot.
pub is_ok-new_table :
    (s : Str)
    → is_ok (new s) ≡ (
        ltb 0 (length s)
        && all_table_chars s
        && no_double_dot dot s
        && not (length s == len s && ends_with_dot s))
unfolding new
is_ok-new_table [] = refl
is_ok-new_table (c ∷ cs) =
    ground (arith, check_chars-is_ok (c ∷ cs) 0 0 (c ∷ cs), length-le-len (c ∷ cs))

-- `new` returns the string that it is given.
pub new-name : (s : Str) (n : TableName) → new s ≡ ok n → n.name ≡ s
unfolding new
new-name [] n h = ground arith
new-name (c ∷ cs) n h = ground arith
