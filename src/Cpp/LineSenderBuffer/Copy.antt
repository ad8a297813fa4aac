-- ===== src/Cpp/LineSenderBuffer/Copy.antt =====
-- The copy constructor of `line_sender_buffer` over the library.
use c_questdb_client.Base.{
  ◌+◌, ◌≡◌, ◌≢◌, ◌<◌, ◌⊎◌, inl, inr, refl, none, ◌==◌, false, arith, if◌then◌else◌, some,
}
use c_questdb_client.Number.{Formatters}
use c_questdb_client.Buffer.{Buffer}
use c_questdb_client.Builder.Build.{Environment}
use c_questdb_client.Sender.{Network}
use c_questdb_client.Capi.Memory.{Memory, null, returned, fault}
use c_questdb_client.Capi.Ffi
use c_questdb_client.Capi.Ffi.Library.{library}
use c_questdb_client.Cpp.LineSenderBuffer.{LineSenderBuffer, copy}
use c_questdb_client.Cpp.LineSenderBuffer.View.{Holds, self}

module _ (x : Formatters) (n : Network) (env : Environment) where
  -- A copy that succeeds: a new object with a C buffer of its own that holds `b`, and the copied
  -- object still holds `b` in the C buffer it had.
  pub record Copied (o : LineSenderBuffer) (b : Buffer) (m : Memory) : Type 0 where
    pub object : LineSenderBuffer
    pub memory : Memory
    pub runs : copy (library x n env) o m ≡ returned object memory
    pub holds : Holds memory object b
    pub kept : Holds memory o b
    pub distinct : object.impl ≢ o.impl

  -- Copying an object whose C buffer was made gives a separate object with the same buffer; copying
  -- one that was never used hands null to the library, which faults. (The C buffer of the copied
  -- object is at an address below that of the next allocation, and nothing is at null.)
  pub copy_lem :
      (o : LineSenderBuffer) (b : Buffer) (m : Memory)
      → o.impl < m.next
      → m.buffers null ≡ none
      → Holds m o b
      → Copied o b m ⊎ ((o.impl ≡ null) × (copy (library x n env) o m ≡ fault))
  unfolding copy Ffi.buffer_clone
  copy_lem o b m lt nothing (inl (unmade, new)) = inr (unmade, rw (unmade, nothing) refl)
  copy_lem o b m lt nothing (inr (ne, at)) =
      let far : (o.impl == m.next) ≡ false = ground arith in
      inl (record {
        object = record o { impl = m.next };
        memory = record m {
          next = m.next + 1;
          buffers = λ q. if q == m.next then some b else m.buffers q;
        };
        runs = rw at refl;
        holds = inr (ground arith, rw self refl);
        kept = inr (ne, rw (far, at) refl);
        distinct = ground arith;
      })
