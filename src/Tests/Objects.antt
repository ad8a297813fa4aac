-- ===== src/Tests/Objects.antt =====
-- The theorems on C and C++ objects at concrete inputs.
use c_questdb_client.Base.{◌≡◌, ◌⊎◌, inl, none, some, ℕ, ◌==◌, if◌then◌else◌, refl, codes, arith}
use c_questdb_client.Error.{ok, err, Error, ErrorCode, error, column_name_empty}
use c_questdb_client.Text.{bytes}
use c_questdb_client.Name.TableName
use c_questdb_client.Name.TableName.{TableName, is_ok-new_table}
use c_questdb_client.Buffer
use c_questdb_client.Buffer.{Buffer, with_max_name_len, set_marker, rewind_to_marker}
use c_questdb_client.Capi.Ffi
use c_questdb_client.Capi.Ffi.Views.{table_name_of, table_name_init-buffer_table}
use c_questdb_client.Capi.Memory.{Memory, null, fault, returned, done, Ptr, update}
use c_questdb_client.Capi.Ffi.Library.{library}
use c_questdb_client.Cpp.LineSenderBuffer.{LineSenderBuffer, copy}
use c_questdb_client.Cpp.LineSenderBuffer.View.{Effect, member-Effect, from_c_lem}
use c_questdb_client.Cpp.LineSenderBuffer.Copy.{Copied, copy_lem}
use c_questdb_client.Cpp.LineSender
use c_questdb_client.Cpp.LineSender.{LineSender}
use c_questdb_client.Cpp.LineSender.Closed.{flush_and_keep-closed}
use c_questdb_client.Cpp.Opts
use c_questdb_client.Cpp.Opts.Chosen.{IsChosen, construct-IsChosen}
use c_questdb_client.Cpp.Wrapped.{from_c}
use c_questdb_client.Capi.Codes.{same_name}
use c_questdb_client.Capi.Enums.{cpp_https, protocol_named}
use c_questdb_client.Capi.Header.{LineSenderUtf8}
use c_questdb_client.Capi.Ffi.{as_str}
use c_questdb_client.Capi.Ffi.Opts as FfiOpts
use c_questdb_client.Tests.{formatters, trades, limit, good_network, environment}

-- Nothing is allocated yet.
abbrev pub memory : Memory
memory = record {
  next = 1;
  buffers = λ p. none;
  errors = λ p. none;
  senders = λ p. none;
  opts = λ p. none;
  strings = λ p. none;
}

abbrev unused : LineSenderBuffer
unused = record { impl = null; init_buf_size = 64; max_name_len = limit }

member-Effect_example :
    Effect formatters good_network environment
      (Buffer.table (ok trades))
      unused
      (with_max_name_len limit)
      memory
member-Effect_example =
    member-Effect formatters good_network environment (Buffer.table (ok trades)) unused
      (with_max_name_len limit) memory (ground arith) (inl (refl, refl))

copy_lem_example :
    Copied formatters good_network environment unused (with_max_name_len limit) memory
    ⊎ ((unused.impl ≡ null)
        × (copy (library formatters good_network environment) unused memory ≡ fault))
copy_lem_example =
    copy_lem formatters good_network environment unused (with_max_name_len limit) memory
      (ground arith) refl (inl (refl, refl))

abbrev closed_sender : LineSender
closed_sender = record { impl = null }

flush_and_keep-closed_example :
    LineSender.flush_and_keep
      (library formatters good_network environment)
      closed_sender
      unused
      memory
    ≡ fault
flush_and_keep-closed_example =
    flush_and_keep-closed formatters good_network environment closed_sender unused memory refl refl
      (ground arith)

table_name_init-buffer_table_example :
    ((Ffi.table_name_init 6 (codes "tradesXYZ") memory
        ≡ returned (done (table_name_of (codes "trades") (codes "XYZ"))) memory)
      × ((p : Ptr)
          → Ffi.buffer_table p (table_name_of (codes "trades") (codes "XYZ"))
            ≡ Ffi.on_buffer p (Buffer.table (TableName.new (codes "trades")))))
    ⊎ ((e : Error) × (TableName.new (codes "trades") ≡ err e)
        × (Ffi.table_name_init 6 (codes "tradesXYZ") memory ≡ Ffi.bubble (err e) memory))
unfolding bytes
table_name_init-buffer_table_example =
    table_name_init-buffer_table (codes "trades") (codes "XYZ") memory (
      inl (ground arith),
      (
        inl (ground arith),
        (inl (ground arith), (inl (ground arith), (inl (ground arith), (inl (ground arith), tt)))),
      ),
    )

-- An error object behind the address 1.
abbrev failed_memory : Memory
failed_memory = record memory {
  next = 2;
  errors = λ p. if p == 1 then some (error ErrorCode.tls_error column_name_empty) else none;
}

from_c_lem_example :
    from_c (library formatters good_network environment).errors 1 failed_memory
    ≡ returned
        (record { code = some (same_name ErrorCode.tls_error); what = column_name_empty })
        (record failed_memory { errors = update failed_memory.errors 1 none })
from_c_lem_example =
    from_c_lem formatters good_network environment 1 (error ErrorCode.tls_error column_name_empty)
      failed_memory refl refl

abbrev local_host : LineSenderUtf8
local_host = record { len = 9; buf = codes "localhost" }

construct-IsChosen_example :
    ((port : ℕ)
      → IsChosen memory
          (Opts.construct
            (library formatters good_network environment)
            cpp_https
            local_host
            port
            memory)
          (protocol_named cpp_https)
          (as_str local_host)
          (FfiOpts.port_text port))
    × ((port : LineSenderUtf8)
        → IsChosen memory
            (Opts.construct_service
              (library formatters good_network environment)
              cpp_https
              local_host
              port
              memory)
            (protocol_named cpp_https)
            (as_str local_host)
            (as_str port))
construct-IsChosen_example =
    construct-IsChosen formatters good_network environment cpp_https local_host memory
