-- ===== src/Cpp/LineSenderBuffer/View.antt =====
-- A `line_sender_buffer` over the library stands for a buffer, whether its C buffer is made or not.
use c_questdb_client.Base.{
  ◌+◌, ◌≡◌, ◌≢◌, ◌<◌, ◌⊎◌, inl, inr, refl, sym, true, false, Option, none, some, ◌==◌, arith,
}
use c_questdb_client.Error.{Error, Result, ok, err, Result-cases}
use c_questdb_client.Number.{Formatters}
use c_questdb_client.Buffer
use c_questdb_client.Buffer.{Buffer, M}
use c_questdb_client.Builder.Build.{Environment}
use c_questdb_client.Sender.{Network}
use c_questdb_client.Capi.Codes.{same_name, cpp_error_code-same_name}
use c_questdb_client.Capi.Memory.{Ptr, null, Memory, returned, update, Exception}
use c_questdb_client.Capi.Ffi
use c_questdb_client.Capi.Ffi.{on_buffer}
use c_questdb_client.Capi.Ffi.Library.{library}
use c_questdb_client.Cpp.Wrapped.{wrapped_call, attempt, from_c}
use c_questdb_client.Cpp.LineSenderBuffer.{LineSenderBuffer, may_init, member}

-- The object holds the buffer `b`: that of its pointer, or a new one that is still to be made.
abbrev pub Holds : Memory → LineSenderBuffer → Buffer → Type 0
Holds m o b =
    ((o.impl ≡ null) × (b ≡ Buffer.with_max_name_len o.max_name_len))
    ⊎ ((o.impl ≢ null) × (m.buffers o.impl ≡ some b))

-- What a result makes a member throw.
abbrev pub thrown_by : Result (Unit {0}) → Option Exception
thrown_by (ok _) = none
thrown_by (err e) = some (record { code = some (same_name e.code); what = e.msg })

-- The memory behind a wrapped call of a buffer method: the buffer is replaced, and an error object
-- was made and freed again.
abbrev memory_after : Memory → Ptr → Result (Unit {0}) → Buffer → Memory
memory_after m p (ok _) b = record m { buffers = update m.buffers p (some b) }
memory_after m p (err e) b = record {
  next = m.next + 1;
  buffers = update m.buffers p (some b);
  errors = update (update m.errors m.next (some e)) m.next none;
  senders = m.senders;
  opts = m.opts;
  strings = m.strings;
}

pub self : (p : Ptr) → (p == p) ≡ true
self p = ground arith

module _ (x : Formatters) (n : Network) (env : Environment) where
  error_free_lem :
      (q : Ptr) (e : Error) (m : Memory)
      → (q == null) ≡ false
      → m.errors q ≡ some e
      → Ffi.error_free q m ≡ returned tt (record m { errors = update m.errors q none })
  unfolding Ffi.error_free
  error_free_lem q e m live h = rw live (rw h refl)

  -- An error object of the library becomes an exception with the message of the Rust error and with
  -- the C++ constant of the name of its code, which goes through the enumerations of lib.rs and of
  -- the header by its number; the object is freed, and nothing else changes.
  pub from_c_lem :
      (q : Ptr) (e : Error) (m : Memory)
      → (q == null) ≡ false
      → m.errors q ≡ some e
      → from_c (library x n env).errors q m
        ≡ returned
            (record { code = some (same_name e.code); what = e.msg })
            (record m { errors = update m.errors q none })
  unfolding from_c Ffi.error_get_code Ffi.error_msg
  from_c_lem q e m live h =
      rw
        (
          Ffi.error_get_code,
          h,
          (cpp_error_code-same_name e.code).0,
          Ffi.error_msg,
          h,
          error_free_lem q e m live h,
          (cpp_error_code-same_name e.code).1,
        )
        refl

  wrapped_on_buffer :
      (f : M (Unit {0})) (p : Ptr) (b : Buffer) (m : Memory)
      → null < m.next
      → m.buffers p ≡ some b
      → attempt (wrapped_call (library x n env).errors (on_buffer p f)) m
        ≡ returned (thrown_by (f b).0) (memory_after m p (f b).0 (f b).1)
  wrapped_on_buffer f p b m pos h = elim (Result-cases (f b).0) [
    | inl (u, e) ↦ rw (h, e) refl
    | inr (e, is) ↦
        let live : (m.next == null) ≡ false = ground arith in
        rw (h, is)
          (rw
            (from_c_lem m.next e
              (record m {
                next = m.next + 1;
                buffers = update m.buffers p (some (f b).1);
                errors = update m.errors m.next (some e);
              })
              live (rw self refl))
            refl)
  ]

  -- What a member that calls `f` does: the object stands for the buffer as `f` leaves it, the
  -- exception is that of its result, and no other buffer or error object changes.
  pub record Effect (f : M (Unit {0})) (o : LineSenderBuffer) (b : Buffer) (m : Memory)
      : Type 0 where
    pub object : LineSenderBuffer
    pub memory : Memory
    pub runs :
        member (library x n env) o (λ p. on_buffer p f) m
        ≡ returned (object, thrown_by (f b).0) memory
    pub holds : Holds memory object (f b).1
    pub live : null < memory.next
    pub other_buffers : (q : Ptr) → q < m.next → q ≢ o.impl → memory.buffers q ≡ m.buffers q
    pub same_errors : (q : Ptr) → q < m.next → memory.errors q ≡ m.errors q

  after_buffers :
      (p : Ptr) (r : Result (Unit {0})) (b : Buffer) (m : Memory) (q : Ptr)
      → (memory_after m p r b).buffers q ≡ update m.buffers p (some b) q
  after_buffers p (ok _) b m q = refl
  after_buffers p (err e) b m q = refl

  after_errors :
      (p : Ptr) (r : Result (Unit {0})) (b : Buffer) (m : Memory) (q : Ptr)
      → q < m.next
      → (memory_after m p r b).errors q ≡ m.errors q
  after_errors p (ok _) b m q lt = refl
  after_errors p (err e) b m q lt = let ne : (q == m.next) ≡ false = ground arith in rw ne refl

  after_next :
      (p : Ptr) (r : Result (Unit {0})) (b : Buffer) (m : Memory)
      → null < m.next
      → null < (memory_after m p r b).next
  after_next p (ok _) b m pos = pos
  after_next p (err e) b m pos = omega arith

  abbrev pub with_new : LineSenderBuffer → Memory → Memory
  with_new o m = record m {
    next = m.next + 1;
    buffers = update m.buffers m.next (some (Buffer.with_max_name_len o.max_name_len));
  }

  pub may_init-new :
      (o : LineSenderBuffer) (m : Memory)
      → o.impl ≡ null
      → may_init (library x n env) o m ≡ returned (record o { impl = m.next }) (with_new o m)
  unfolding may_init Ffi.buffer_with_max_name_len Ffi.buffer_reserve
  may_init-new o m unmade = rw (unmade, self) refl

  may_init-made :
      (o : LineSenderBuffer) (m : Memory)
      → o.impl ≢ null
      → may_init (library x n env) o m ≡ returned o m
  unfolding may_init
  may_init-made o m ne = let live : (o.impl == null) ≡ false = ground arith in rw live refl

  -- Over the library, a member function that calls a method of the buffer does to an object, made or
  -- not, what the method does to the buffer the object stands for, and throws exactly when it fails.
  pub member-Effect :
      (f : M (Unit {0})) (o : LineSenderBuffer) (b : Buffer) (m : Memory)
      → null < m.next
      → Holds m o b
      → Effect f o b m
  unfolding member
  member-Effect f o b m pos (inl (unmade, new)) =
      let p = m.next in
      let m1 = with_new o m in
      let there : m1.buffers p ≡ some b = rw (self, sym new) refl in
      record {
        object = record o { impl = p };
        memory = memory_after m1 p (f b).0 (f b).1;
        runs = rw (may_init-new o m unmade, wrapped_on_buffer f p b m1 (ground arith) there) refl;
        holds = inr (ground arith, rw (after_buffers, self) refl);
        live = after_next p (f b).0 (f b).1 m1 (ground arith);
        other_buffers =
            λ q lt nq. let far : (q == p) ≡ false = ground arith in rw (after_buffers, far) refl;
        same_errors = λ q lt. after_errors p (f b).0 (f b).1 m1 q (ground arith);
      }
  member-Effect f o b m pos (inr (ne, at)) = record {
    object = o;
    memory = memory_after m o.impl (f b).0 (f b).1;
    runs = rw (may_init-made o m ne, wrapped_on_buffer f o.impl b m pos at) refl;
    holds = inr (ne, rw (after_buffers, self) refl);
    live = after_next o.impl (f b).0 (f b).1 m pos;
    other_buffers =
        λ q lt nq. let far : (q == o.impl) ≡ false = ground arith in rw (after_buffers, far) refl;
    same_errors = after_errors o.impl (f b).0 (f b).1 m;
  }
