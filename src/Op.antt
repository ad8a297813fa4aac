-- ===== src/Op.antt =====
-- The operations of a buffer and its states, of questdb-rs/src/ingress/mod.rs. An enum's number is
-- its `as isize` value; `OpCase` is the bit set of the operations that may come next.
use c_questdb_client.Base.{ℕ, bit_or}

pub data Op : Type 0 where
  table symbol column at flush : Op

-- `Op as isize`
abbrev pub bit : Op → ℕ
bit table = 1
bit symbol = 2
bit column = 4
bit at = 8
bit flush = 16

pub data OpCase : Type 0 where
  init table_written symbol_written column_written may_flush_or_table : OpCase

-- `OpCase as isize`
abbrev pub bits : OpCase → ℕ
bits init = bit table
bits table_written = bit_or (bit symbol) (bit column)
bits symbol_written = bit_or (bit_or (bit symbol) (bit column)) (bit at)
bits column_written = bit_or (bit column) (bit at)
bits may_flush_or_table = bit_or (bit flush) (bit table)
