-- ===== src/Escape/InPlace.antt =====
-- The in-place routine appends the text that the plain definition `escape` gives.
use c_questdb_client.Base.{
  ℕ, ◌+◌, ◌≡◌, refl, sym, ap, ◌∙◌, Bool, [], ◌∷◌, ◌++◌, append_assoc, ◌==◌, Bool-cases,
  if◌then◌else◌, length, length-append, length-replicate, replicate, set-length-append, flat_map,
  inl, inr, arith, set,
}
use native.Mathlib.Numerals.{add-one}
use c_questdb_client.Text.{Str, Bytes, bytes}
use c_questdb_client.Escape.{
  backslash, count_escapes, write_loop, write_escaped_impl, must_escape_unquoted,
  must_escape_quoted, write_escaped_unquoted, write_escaped_quoted,
}

abbrev pub escape_byte : (ℕ → Bool) → ℕ → Bytes
escape_byte check b = if check b then backslash ∷ b ∷ [] else b ∷ []

-- Each byte that needs one gets a backslash in front.
unfoldable pub escape : (ℕ → Bool) → Bytes → Bytes
escape check s = flat_map (escape_byte check) s

set_second :
    (out : Bytes) (x y v : ℕ) (spare : Bytes)
    → set (out ++ x ∷ y ∷ spare) (length out + 1) v ≡ out ++ x ∷ v ∷ spare
set_second [] x y v spare = refl
set_second (o ∷ out) x y v spare =
    rw add-one (ap (λ t. o ∷ t) (rw (← add-one) (set_second out x y v spare)))

module _ (check : ℕ → Bool) where
  length-escape : (s : Bytes) → length (escape check s) ≡ length s + count_escapes check s
  unfolding escape count_escapes
  length-escape [] = omega arith
  length-escape (b ∷ bs) = ground (
    arith,
    length-append (escape_byte check b) (flat_map (escape_byte check) bs),
    length-escape bs,
  )

  escape_none : (s : Bytes) → count_escapes check s ≡ 0 → escape check s ≡ s
  unfolding escape count_escapes
  escape_none [] h = refl
  escape_none (b ∷ bs) h = ground (arith, escape_none bs)

  -- One byte written at the end of `out`: the claim for `out ++ b ∷ []`, with its sums computed.
  snoc :
      (b : ℕ) (s out spare : Bytes)
      → write_loop check (length (out ++ b ∷ [])) ((out ++ b ∷ []) ++ spare) s
        ≡ (out ++ b ∷ []) ++ escape check s
      → write_loop check (length out + 1) (out ++ b ∷ spare) s ≡ out ++ b ∷ escape check s
  snoc b s out spare h = simp (append_assoc, length-append) at h

  snoc₂ :
      (b : ℕ) (s out spare : Bytes)
      → write_loop check
          (length (out ++ backslash ∷ b ∷ []))
          ((out ++ backslash ∷ b ∷ []) ++ spare)
          s
        ≡ (out ++ backslash ∷ b ∷ []) ++ escape check s
      → write_loop check (length out + 1 + 1) (out ++ backslash ∷ b ∷ spare) s
        ≡ out ++ backslash ∷ b ∷ escape check s
  snoc₂ b s out spare h =
      let two : length out + 1 + 1 ≡ length out + 2 = omega arith in
      rw two (simp (append_assoc, length-append) at h)

  -- The loop fills the space behind `out` with the escaped text, and no more than it.
  write_loop-escape :
      (s out spare : Bytes)
      → length spare ≡ length s + count_escapes check s
      → write_loop check (length out) (out ++ spare) s ≡ out ++ escape check s
  unfolding write_loop count_escapes escape
  write_loop-escape [] out [] h = refl
  write_loop-escape [] out (x ∷ spare) h = absurd (omega arith)
  write_loop-escape (b ∷ bs) out [] h = absurd (omega arith)
  write_loop-escape (b ∷ bs) out (x ∷ []) h = elim (Bool-cases (check b)) [
    | inl escaped ↦ absurd (ground arith)
    | inr plain ↦
        rw (plain, set-length-append)
          (snoc b bs out [] (write_loop-escape bs (out ++ b ∷ []) [] (ground arith)))
  ]
  write_loop-escape (b ∷ bs) out (x ∷ y ∷ spare) h = elim (Bool-cases (check b)) [
    | inl escaped ↦
        rw (escaped, set-length-append, set_second)
          (snoc₂ b bs out spare
            (write_loop-escape bs (out ++ backslash ∷ b ∷ []) spare (ground arith)))
    | inr plain ↦
        rw (plain, set-length-append)
          (snoc b bs out (y ∷ spare)
            (write_loop-escape bs (out ++ b ∷ []) (y ∷ spare) (ground arith)))
  ]

module _ (uninit : ℕ) (check : ℕ → Bool) (quoting_fn : Bytes → Bytes) where
  -- `write_escaped_impl` appends the escaped text between two calls of the quoting function,
  -- whatever the memory held that it exposes.
  pub write_escaped_impl-escape :
      (output s : Bytes)
      → write_escaped_impl uninit check quoting_fn output s
        ≡ quoting_fn (quoting_fn output ++ escape check s)
  unfolding write_escaped_impl
  write_escaped_impl-escape output s = elim (Bool-cases (count_escapes check s == 0)) [
    | inl nothing ↦
        rw nothing
          (ap (λ t. quoting_fn (quoting_fn output ++ t)) (sym (escape_none check s (ground arith))))
    | inr some ↦ rw some (
        ap quoting_fn (
          write_loop-escape check s (quoting_fn output)
            (replicate (length s + count_escapes check s) uninit) (length-replicate _ uninit)))
  ]

pub write_escaped_unquoted-escape :
    (output : Bytes) (s : Str)
    → write_escaped_unquoted output s ≡ output ++ escape must_escape_unquoted (bytes s)
unfolding write_escaped_unquoted
write_escaped_unquoted-escape output s =
    write_escaped_impl-escape 0 must_escape_unquoted _ output (bytes s)

pub write_escaped_quoted-escape :
    (output : Bytes) (s : Str)
    → write_escaped_quoted output s
      ≡ output ++ 0x22 ∷ (escape must_escape_quoted (bytes s) ++ 0x22 ∷ [])
unfolding write_escaped_quoted
write_escaped_quoted-escape output s =
    write_escaped_impl-escape 0 must_escape_quoted _ output (bytes s) ∙ simp append_assoc
