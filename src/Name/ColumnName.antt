-- ===== src/Name/ColumnName.antt =====
-- `ColumnName::new` of questdb-rs/src/ingress/mod.rs, and what it accepts.
use c_questdb_client.Base.{
  Bool-cases, inl, inr, zero, suc, ◌<◌, ◌≤◌, false, ◌||◌, leb, ℕ, ◌+◌, ◌≡◌, refl, Bool, true, not,
  ◌&&◌, List, [], ◌∷◌, ltb, ◌==◌, if◌then◌else◌, any, length, arith,
}
use c_questdb_client.Error.{
  Result, ok, err, error, is_ok, invalid_name, column_name_empty, column_name_char, column_name_bom,
  ◌>>◌,
}
use c_questdb_client.Text.{Str}

pub record ColumnName : Type 0 where
  pub name : Str

-- The characters of the `match` arm that refuses a character.
abbrev forbidden_chars : List ℕ
forbidden_chars =
    0x3f ∷ 0x2e ∷ 0x2c ∷ 0x27 ∷ 0x22 ∷ 0x5c ∷ 0x2f ∷ 0x3a ∷ 0x29 ∷ 0x28 ∷ 0x2b ∷ 0x2d ∷ 0x2a ∷ 0x25
    ∷ 0x7e ∷ 0x0d ∷ 0x0a ∷ 0 ∷ 1 ∷ 2 ∷ 3 ∷ 4 ∷ 5 ∷ 6 ∷ 7 ∷ 8 ∷ 9 ∷ 0x0b ∷ 0x0c ∷ 0x0e ∷ 0x0f ∷ 0x7f
    ∷ []

is_forbidden : ℕ → Bool
is_forbidden c = any (λ k. c == k) forbidden_chars

-- The loop over `name.chars().enumerate()`.
check_chars : Str → (index : ℕ) → Str → Result (Unit {0})
check_chars name index [] = ok tt
check_chars name index (c ∷ cs) =
    let rest = check_chars name (index + 1) cs in
    if is_forbidden c
    then err (error invalid_name (column_name_char name c index))
    else if c == 0xfeff
    then err (error invalid_name (column_name_bom name index))
    else rest

unfoldable pub new : Str → Result ColumnName
unfolding check_chars is_forbidden
new [] = err (error invalid_name column_name_empty)
new (c ∷ cs) = check_chars (c ∷ cs) 0 (c ∷ cs) >> ok (record { name = c ∷ cs })

-- `new_unchecked`
abbrev pub new_unchecked : Str → ColumnName
new_unchecked s = record { name = s }

-- What a column name may hold, by ranges of code points: the blank, `!`, `#`, `$`, `&`, digits, `;`
-- to `>`, `@` to `[`, `]` to `}`, and all beyond ASCII but the byte order mark. The controls from
-- 0x10 to 0x1f are among them.
unfoldable pub is_column_char : ℕ → Bool
is_column_char c =
    (leb 0x10 c && leb c 0x21)
    || (leb 0x23 c && leb c 0x24)
    || (c == 0x26)
    || (leb 0x30 c && leb c 0x39)
    || (leb 0x3b c && leb c 0x3e)
    || (leb 0x40 c && leb c 0x5b)
    || (leb 0x5d c && leb c 0x7d)
    || (leb 0x80 c && leb c 0xfefe)
    || leb 0xff00 c

unfoldable pub all_column_chars : Str → Bool
all_column_chars [] = true
all_column_chars (c ∷ cs) = is_column_char c && all_column_chars cs

-- A test that holds of every number below a bound, by computation.
below : (ℕ → Bool) → ℕ → Bool
below p zero = true
below p (suc n) = p n && below p n

below_at : (p : ℕ → Bool) (n c : ℕ) → below p n ≡ true → c < n → p c ≡ true
unfolding below
below_at p zero c h lt = ground arith
below_at p (suc n) c h lt = elim (Bool-cases (c == n)) [
  | inl last ↦ let at : c ≡ n = ground arith in rw at (ground arith)
  | inr other ↦ below_at p n c (ground arith) (ground arith)
]

same : Bool → Bool → Bool
same a b = if a then b else not b

same_lem : (a b : Bool) → same a b ≡ true → a ≡ b
unfolding same
same_lem a b h = ground arith

ascii_cases :
    below (λ c. same (is_column_char c) (not (is_forbidden c) && not (c == 0xfeff))) 0x80 ≡ true
unfolding below same is_column_char is_forbidden
ascii_cases = refl

beyond_ascii : (c : ℕ) → 0x80 ≤ c → is_forbidden c ≡ false
unfolding is_forbidden
beyond_ascii c h = ground arith

beyond_cases : (c : ℕ) → 0x80 ≤ c → is_column_char c ≡ not (c == 0xfeff)
unfolding is_column_char
beyond_cases c h = ground arith

char_cases : (c : ℕ) → is_column_char c ≡ (not (is_forbidden c) && not (c == 0xfeff))
char_cases c = elim (Bool-cases (ltb c 0x80)) [
  | inl ascii ↦ same_lem _ _ (below_at _ 0x80 c ascii_cases (ground arith))
  | inr beyond ↦ let h : 0x80 ≤ c = ground arith in rw (beyond_ascii c h, beyond_cases c h) refl
]

check_chars-is_ok :
    (name : Str) (index : ℕ) (cs : Str) → is_ok (check_chars name index cs) ≡ all_column_chars cs
unfolding check_chars all_column_chars
check_chars-is_ok name index [] = refl
check_chars-is_ok name index (c ∷ cs) =
    ground (arith, char_cases c, check_chars-is_ok name (index + 1) cs)

-- `new` accepts a string exactly when it is not empty and each of its characters is in one of the
-- ranges of code points that a column name may hold.
pub is_ok-new_column : (s : Str) → is_ok (new s) ≡ (ltb 0 (length s) && all_column_chars s)
unfolding new
is_ok-new_column [] = refl
is_ok-new_column (c ∷ cs) = ground (arith, check_chars-is_ok (c ∷ cs) 0 (c ∷ cs))

-- `new` returns the string that it is given.
pub new-name : (s : Str) (n : ColumnName) → new s ≡ ok n → n.name ≡ s
unfolding new
new-name [] n h = ground arith
new-name (c ∷ cs) n h = ground arith
