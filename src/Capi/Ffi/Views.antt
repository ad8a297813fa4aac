-- ===== src/Capi/Ffi/Views.antt =====
-- The views of names and strings in questdb-rs-ffi/src/lib.rs: made by an `_init` function, they mean
-- to a buffer function the string whose bytes were given.
use c_questdb_client.Name.TableName.{new-name}
use c_questdb_client.Base.{
  ℕ, none, ◌≡◌, refl, length, take, take-length-append, ◌++◌, All, ◌⊎◌, inl, inr, some,
}
use c_questdb_client.Error.{Error, ok, err, Result-cases}
use c_questdb_client.Text.{Str, Bytes, bytes}
use c_questdb_client.Text.Utf8.{from_utf8, from_utf8-bytes, IsChar}
use c_questdb_client.Name.TableName
use c_questdb_client.Buffer
use c_questdb_client.Capi.Memory.{Ptr, Memory, returned, done}
use c_questdb_client.Capi.Header.{LineSenderTableName}
use c_questdb_client.Capi.Ffi.{
  utf8_init, utf8_error, bubble, on_buffer, table_name_init, buffer_table, unwrap_utf8_or_str,
  checked_table_name, then_view, str_unchecked,
}

read_view :
    (s : Str) (rest : Bytes)
    → All IsChar s
    → from_utf8 (take (length (bytes s)) (bytes s ++ rest)) ≡ some s
read_view s rest h = rw (take-length-append, from_utf8-bytes s h) refl

unwrap_view :
    (s : Str) (rest : Bytes)
    → All IsChar s
    → unwrap_utf8_or_str (take (length (bytes s)) (bytes s ++ rest)) ≡ ok s
unfolding unwrap_utf8_or_str
unwrap_view s rest h = rw (unwrap_utf8_or_str, read_view s rest h) refl

unchecked_view :
    (s : Str) (rest : Bytes)
    → All IsChar s
    → str_unchecked (take (length (bytes s)) (bytes s ++ rest)) ≡ s
unfolding str_unchecked
unchecked_view s rest h = rw (str_unchecked, read_view s rest h) refl

abbrev pub table_name_of : Str → Bytes → LineSenderTableName
table_name_of s rest = record { len = length (bytes s); buf = bytes s ++ rest }

-- From the UTF-8 bytes of a string, whatever stands behind them, `table_name_init` either makes a
-- view with which `line_sender_buffer_table` does what the table method does with the string, or
-- the string is not a table name and the error object holds the error that says why.
pub table_name_init-buffer_table :
    (s : Str) (rest : Bytes) (m : Memory)
    → All IsChar s
    → ((table_name_init (length (bytes s)) (bytes s ++ rest) m
          ≡ returned (done (table_name_of s rest)) m)
        × ((p : Ptr)
            → buffer_table p (table_name_of s rest) ≡ on_buffer p (Buffer.table (TableName.new s))))
      ⊎ ((e : Error) × (TableName.new s ≡ err e)
          × (table_name_init (length (bytes s)) (bytes s ++ rest) m ≡ bubble (err e) m))
unfolding table_name_init buffer_table checked_table_name then_view
table_name_init-buffer_table s rest m h = elim (Result-cases (TableName.new s)) [
  | inl (n, is) ↦ inl (
    rw (table_name_init, unwrap_view s rest h, is) refl,
    λ p. rw (buffer_table, unchecked_view s rest h, is, ← new-name s n is) refl,
  )
  | inr (e, is) ↦ inr (e, is, rw (table_name_init, unwrap_view s rest h, is) refl)
]

-- Bytes that are UTF-8 make a view of the string they decode to, and others an error.
module _ (len : ℕ) (buf : Bytes) where
  unwrap-some :
      (s : Str) → from_utf8 (take len buf) ≡ some s → unwrap_utf8_or_str (take len buf) ≡ ok s
  unfolding unwrap_utf8_or_str
  unwrap-some s h = rw (unwrap_utf8_or_str, h) refl

  unwrap-none :
      from_utf8 (take len buf) ≡ none
      → unwrap_utf8_or_str (take len buf) ≡ err (utf8_error (take len buf))
  unfolding unwrap_utf8_or_str
  unwrap-none h = rw (unwrap_utf8_or_str, h) refl

  pub utf8_init-some :
      (s : Str) (m : Memory)
      → from_utf8 (take len buf) ≡ some s
      → utf8_init len buf m ≡ returned (done (record { len = len; buf = buf })) m
  unfolding utf8_init then_view
  utf8_init-some s m h = rw (utf8_init, unwrap-some s h) refl

  pub utf8_init-none :
      (m : Memory)
      → from_utf8 (take len buf) ≡ none
      → utf8_init len buf m ≡ bubble (err (utf8_error (take len buf))) m
  unfolding utf8_init then_view
  utf8_init-none m h = rw (utf8_init, unwrap-none h) refl

  pub str_unchecked-some :
      (s : Str) → from_utf8 (take len buf) ≡ some s → str_unchecked (take len buf) ≡ s
  unfolding str_unchecked
  str_unchecked-some s h = rw (str_unchecked, h) refl
