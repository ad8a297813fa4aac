-- ===== src/MockServer.antt =====
-- `recv` of cpp_test/mock_server.cpp, with which the C++ tests read what is sent. The system calls
-- `select` and `recv` are parameters: whether data arrives in time, and the chunks that arrive.
pub mod Lines
use c_questdb_client.Base.{
  true, false, ℕ, ◌≡◌, Bool, true, false, not, ◌&&◌, Option, none, some, List, [], ◌∷◌, ◌++◌,
  length, ◌==◌, if◌then◌else◌,
}
use c_questdb_client.Text.{Bytes}
use c_questdb_client.Escape.{backslash}

pub record MockServer : Type 0 where
  pub msgs : List Bytes

-- How `recv` ends: with a count, by throwing, or not at all, where it waits for more.
pub data Received (A : Type 0) : Type 0 where
  complete : A → Received A
  bad_recv : Received A
  waiting : Received A

abbrev pub is_end : (prev last : ℕ) → Bool
is_end prev last = last == 0x0a && not (prev == backslash)

-- The test behind each chunk
unfoldable pub ends : (accum : Bytes) → Bool
ends [] = false
ends (prev ∷ []) = false
ends (prev ∷ last ∷ []) = is_end prev last
ends (b ∷ prev ∷ last ∷ bs) = ends (prev ∷ last ∷ bs)

-- `none` is a call that returns -1. A peer that has closed the connection gives empty chunks.
unfoldable pub accumulate : (accum : Bytes) → List (Option Bytes) → Received Bytes
unfolding ends
accumulate accum [] = waiting
accumulate accum (none ∷ chunks) = bad_recv
accumulate accum (some chunk ∷ chunks) =
    let rest = accumulate (accum ++ chunk) chunks in
    if ends (accum ++ chunk) then complete (accum ++ chunk) else rest

-- The second loop: `head` holds the bytes of the message that is begun.
unfoldable pub split_from : (head : Bytes) (prev : ℕ) → Bytes → List Bytes
split_from head prev [] = []
split_from head prev (last ∷ bs) = elim (is_end prev last) [
  | true ↦ (head ++ last ∷ []) ∷ split_from [] last bs
  | false ↦ split_from (head ++ last ∷ []) last bs
]

unfoldable pub split : (accum : Bytes) → List Bytes
unfolding split_from
split [] = []
split (b ∷ bs) = split_from (b ∷ []) b bs

abbrev received : MockServer → Received Bytes → Received (ℕ × MockServer)
received s (complete accum) =
    complete (length (split accum), record s { msgs = s.msgs ++ split accum })
received s bad_recv = bad_recv
received s waiting = waiting

unfoldable pub recv :
    (in_time : Bool) (chunks : List (Option Bytes)) → MockServer → Received (ℕ × MockServer)
unfolding accumulate split
recv in_time chunks s = if not in_time then complete (0, s) else received s (accumulate [] chunks)
