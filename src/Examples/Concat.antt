-- ===== src/Examples/Concat.antt =====
-- `concat_` of examples/concat.c. A `const char*` is the bytes behind it: up to the first NUL, or to
-- their end, where a NUL follows.
use c_questdb_client.Base.{
  ℕ, zero, suc, ◌+◌, ◌%◌, ◌^◌, ◌<◌, ◌≡◌, ◌≢◌, refl, sym, Bool, false, Option, none, some, List, [],
  ◌∷◌, ◌++◌, append_assoc, append-nil, length, replicate, flat_map, All, All-append, length-append,
  ◌==◌, if◌then◌else◌, arith, Bool-cases, inl, inr, ap, ◌∙◌, length-replicate,
}
use c_questdb_client.Text.{Bytes}

-- The string behind a pointer, without its NUL.
unfoldable pub text : Bytes → Bytes
text [] = []
text (b ∷ bs) = let rest = text bs in if b == 0 then [] else b ∷ rest

abbrev pub strlen : Bytes → ℕ
strlen s = length (text s)

abbrev cons : ℕ → Option Bytes → Option Bytes
cons b (some bs) = some (b ∷ bs)
cons b none = none

-- Writing bytes at an offset of a block; `none` is a write behind its end.
unfoldable pub write : (block : Bytes) → ℕ → Bytes → Option Bytes
write block n [] = some block
write [] n (c ∷ src) = none
write (b ∷ block) zero (c ∷ src) = cons c (write block zero src)
write (b ∷ block) (suc n) (c ∷ src) = cons b (write block n (c ∷ src))

strcpy : (dst src : Bytes) → Option Bytes
strcpy dst src = write dst 0 (text src ++ 0 ∷ [])

strcat : (dst src : Bytes) → Option Bytes
strcat dst src = write dst (strlen dst) (text src ++ 0 ∷ [])

-- The first loop; `size_t` wraps around.
unfoldable pub total_len : ℕ → List Bytes → ℕ
total_len n [] = n
total_len n (str ∷ args) = total_len ((n + strlen str) % 2 ^ 64) args

-- The second loop
strcat_all : List Bytes → Option Bytes → Option Bytes
strcat_all args none = none
strcat_all [] (some result) = some result
strcat_all (str ∷ args) (some result) = strcat_all args (strcat result str)

-- What is returned: NULL where `calloc` fails, and otherwise the block, where `none` inside is a
-- write behind its end.
unfoldable pub concat_ : (calloc : ℕ → Bool) → (first : Bytes) → List Bytes → Option (Option Bytes)
unfolding strcpy strcat strcat_all
concat_ calloc first args =
    let n = total_len ((strlen first + 1) % 2 ^ 64) args in
    if calloc n then some (strcat_all args (strcpy (replicate n 0) first)) else none

-- The bytes of all the strings, one behind the other.
abbrev pub joined : Bytes → List Bytes → Bytes
joined first args = text first ++ flat_map text args

abbrev NoNul : Bytes → Type 0
NoNul = All (λ b. b ≢ 0)

text-NoNul : (s : Bytes) → NoNul (text s)
unfolding text
text-NoNul [] = tt
text-NoNul (b ∷ bs) = elim (Bool-cases (b == 0)) [
  | inl is ↦ rw is tt
  | inr ne ↦ rw ne (ground arith, text-NoNul bs)
]

text-NoNul-append : (s r : Bytes) → NoNul s → text (s ++ 0 ∷ r) ≡ s
unfolding text
text-NoNul-append [] r h = refl
text-NoNul-append (b ∷ bs) r (ne, h) =
    let is : (b == 0) ≡ false = ground arith in rw (is, text-NoNul-append bs r h) refl

write_lem :
    (s t r u : Bytes) → length t ≡ length r → write (s ++ r ++ u) (length s) t ≡ some (s ++ t ++ u)
unfolding write
write_lem [] [] [] u h = refl
write_lem [] [] (b ∷ r) u h = absurd (omega arith)
write_lem [] (c ∷ t) [] u h = absurd (omega arith)
write_lem [] (c ∷ t) (b ∷ r) u h = rw (write_lem [] t r u (omega arith)) refl
write_lem (a ∷ s) [] [] u h = refl
write_lem (a ∷ s) [] (b ∷ r) u h = absurd (omega arith)
write_lem (a ∷ s) (c ∷ t) r u h = rw (write_lem s (c ∷ t) r u h) refl

abbrev zeros : ℕ → Bytes
zeros n = replicate n 0

same_zeros : (n k : ℕ) → n ≡ k → zeros n ≡ zeros k
same_zeros n k h = ap zeros h

zeros-add : (n k : ℕ) → zeros (n + k) ≡ zeros n ++ zeros k
zeros-add zero k = same_zeros (0 + k) k (omega arith)
zeros-add (suc n) k =
    same_zeros (suc n + k) (suc (n + k)) (omega arith) ∙ ap (λ t. 0 ∷ t) (zeros-add n k)

-- Appending into a block that ends in zeros, of which one is left over.
strcat_lem :
    (s src : Bytes) (k : ℕ)
    → NoNul s
    → strcat (s ++ zeros (suc (strlen src + k))) src ≡ some ((s ++ text src) ++ zeros (suc k))
unfolding strcat
strcat_lem s src k h =
    let split : zeros (suc (strlen src + k)) ≡ zeros (strlen src + 1) ++ zeros k =
      same_zeros (suc (strlen src + k)) (strlen src + 1 + k) (omega arith)
      ∙ zeros-add (strlen src + 1) k in
    let fits : length (text src ++ 0 ∷ []) ≡ length (zeros (strlen src + 1)) =
      omega
        (arith, length-append (text src) (0 ∷ []), length-replicate {A = ℕ} (strlen src + 1) 0) in
    let written = write_lem s (text src ++ 0 ∷ []) (zeros (strlen src + 1)) (zeros k) fits in
    let t = text src in
    let z = zeros (strlen src + 1) in
    rw (text-NoNul-append s (zeros (strlen src + k)) h) (
      ap (λ r. write (s ++ r) (length s) (t ++ 0 ∷ [])) split
      ∙ ap (λ r. write r (length s) (t ++ 0 ∷ [])) (sym (append_assoc s z (zeros k)))
      ∙ written
      ∙ ap some (
          append_assoc s (t ++ 0 ∷ []) (zeros k)
          ∙ ap (λ r. s ++ r) (append_assoc t (0 ∷ []) (zeros k))
          ∙ sym (append_assoc s t (0 ∷ zeros k))))

lens : List Bytes → ℕ
lens args = length (flat_map text args)

total_len_lem :
    (n : ℕ) (args : List Bytes) → n + lens args < 2 ^ 64 → total_len n args ≡ n + lens args
unfolding total_len lens
total_len_lem n [] h = omega arith
total_len_lem n (str ∷ args) h =
    let l = length-append (text str) (flat_map text args) in
    let small : (n + strlen str) % 2 ^ 64 ≡ n + strlen str = omega arith in
    rw (small) (total_len_lem (n + strlen str) args (omega arith) ∙ omega arith)

strcat_all_lem :
    (args : List Bytes) (s : Bytes)
    → NoNul s
    → strcat_all args (some (s ++ zeros (suc (lens args))))
      ≡ some ((s ++ flat_map text args) ++ 0 ∷ [])
unfolding strcat_all lens
strcat_all_lem [] s h = rw (append-nil s) refl
strcat_all_lem (str ∷ args) s h =
    let size : lens (str ∷ args) ≡ strlen str + lens args =
      length-append (text str) (flat_map text args) in
    let later =
      strcat_all_lem args (s ++ text str)
        (All-append (λ b. b ≢ 0) s (text str) h (text-NoNul str)) in
    let step : strcat (s ++ zeros (suc (lens (str ∷ args)))) str
        ≡ some ((s ++ text str) ++ zeros (suc (lens args))) =
      ap (λ k. strcat (s ++ zeros (suc k)) str) size ∙ strcat_lem s str (lens args) h in
    ap (strcat_all args) step
    ∙ later
    ∙ ap some (rw (append_assoc s (text str) (flat_map text args)) refl)

strcpy_lem :
    (src : Bytes) (k : ℕ)
    → strcpy (zeros (suc (strlen src + k))) src ≡ some (text src ++ zeros (suc k))
unfolding strcpy strcat text write
strcpy_lem src k = strcat_lem [] src k tt

concat_block :
    (first : Bytes) (args : List Bytes)
    → strcat_all args (strcpy (zeros (suc (strlen first + lens args))) first)
      ≡ some (joined first args ++ 0 ∷ [])
concat_block first args =
    ap (strcat_all args) (strcpy_lem first (lens args))
    ∙ strcat_all_lem args (text first) (text-NoNul first)

-- `concat_` never writes behind the end of the block that it allocates, as long as the lengths add up
-- to less than 2 ^ 64: it returns NULL where memory is short, and otherwise a block that holds the
-- strings one behind the other and a single NUL, and ends there.
pub concat_-joined :
    (calloc : ℕ → Bool) (first : Bytes) (args : List Bytes)
    → length (joined first args) + 1 < 2 ^ 64
    → concat_ calloc first args ≡ (
        if calloc (length (joined first args) + 1)
        then some (some (joined first args ++ 0 ∷ []))
        else none)
unfolding concat_ lens
concat_-joined calloc first args small =
    let sum : length (joined first args) ≡ strlen first + lens args =
      length-append (text first) (flat_map text args) in
    let one : (strlen first + 1) % 2 ^ 64 ≡ strlen first + 1 = omega arith in
    let size : total_len ((strlen first + 1) % 2 ^ 64) args ≡ suc (strlen first + lens args) =
      ap (λ n. total_len n args) one
      ∙ total_len_lem (strlen first + 1) args (omega arith)
      ∙ omega arith in
    let same : length (joined first args) + 1 ≡ suc (strlen first + lens args) = omega arith in
    rw (size, same, concat_block first args) refl

flat_map-NoNul : (args : List Bytes) → NoNul (flat_map text args)
flat_map-NoNul [] = tt
flat_map-NoNul (str ∷ args) =
    All-append (λ b. b ≢ 0) (text str) (flat_map text args) (text-NoNul str) (flat_map-NoNul args)

-- The string in the block is all of it but the NUL.
pub text-joined :
    (first : Bytes) (args : List Bytes) → text (joined first args ++ 0 ∷ []) ≡ joined first args
text-joined first args = text-NoNul-append (joined first args) [] (
    All-append (λ b. b ≢ 0) (text first) (flat_map text args) (text-NoNul first)
      (flat_map-NoNul args))
