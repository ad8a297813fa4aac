-- ===== src/Escape.antt =====
-- `write_escaped_impl` and its two uses, of questdb-rs/src/ingress/mod.rs. The routine counts first
-- and then writes by index into memory that `set_len` exposes; `uninit` is what that memory holds.
-- The counts and indices are `usize`; an allocation has at most 2^63 - 1 bytes, so none of them
-- wraps around, and they are plain numbers here.
pub mod InPlace
pub mod Scan
use c_questdb_client.Base.{
  ℕ, ◌+◌, Bool, ◌||◌, [], ◌∷◌, ◌++◌, ◌==◌, if◌then◌else◌, length, set, replicate,
}
use c_questdb_client.Text.{Str, Bytes, bytes}

abbrev pub backslash : ℕ
backslash = b'\\'

-- The first loop: how many bytes need a backslash.
count_escapes : (ℕ → Bool) → Bytes → ℕ
count_escapes check [] = 0
count_escapes check (b ∷ bs) = (if check b then 1 else 0) + count_escapes check bs

-- The second loop, at `index` of `output_vec`.
write_loop : (ℕ → Bool) → (index : ℕ) → Bytes → Bytes → Bytes
write_loop check index output_vec [] = output_vec
write_loop check index output_vec (b ∷ bs) =
    let escaped = check b in
    let output = if escaped then set output_vec index backslash else output_vec in
    let at = if escaped then index + 1 else index in write_loop check (at + 1) (set output at b) bs

unfoldable pub write_escaped_impl :
    (uninit : ℕ) → (ℕ → Bool) → (Bytes → Bytes) → Bytes → Bytes → Bytes
unfolding count_escapes write_loop
write_escaped_impl uninit check quoting_fn output s =
    let to_escape = count_escapes check s in
    let opened = quoting_fn output in
    let additional = length s + to_escape in
    let filled =
      if to_escape == 0
      then opened ++ s
      else write_loop check (length opened) (opened ++ replicate additional uninit) s in
    quoting_fn filled

unfoldable pub must_escape_unquoted : ℕ → Bool
must_escape_unquoted c =
    c == b' ' || c == b',' || c == b'=' || c == 0x0a || c == 0x0d || c == backslash

unfoldable pub must_escape_quoted : ℕ → Bool
must_escape_quoted c = c == 0x0a || c == 0x0d || c == 0x22 || c == backslash

unfoldable pub write_escaped_unquoted : Bytes → Str → Bytes
write_escaped_unquoted output s =
    write_escaped_impl 0 must_escape_unquoted (λ out. out) output (bytes s)

unfoldable pub write_escaped_quoted : Bytes → Str → Bytes
write_escaped_quoted output s =
    write_escaped_impl 0 must_escape_quoted (λ out. out ++ 0x22 ∷ []) output (bytes s)
