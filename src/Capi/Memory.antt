-- ===== src/Capi/Memory.antt =====
-- The objects behind the pointers of the C API, and commands on them. `Box::into_raw` allocates, a
-- use of a null or dangling pointer is a fault, a panic aborts, and a C++ function may throw.
use c_questdb_client.Base.{ℕ, ◌+◌, Option, none, some, ◌==◌, if◌then◌else◌}
use c_questdb_client.Error.{Error, Message}
use c_questdb_client.Capi.Codes.{CppErrorCode}
use c_questdb_client.Buffer.{Buffer}
use c_questdb_client.Text.{Bytes}
use c_questdb_client.Builder.{SenderBuilder}
use c_questdb_client.Sender.{Sender}

abbrev pub Ptr : Type 0
Ptr = ℕ

abbrev pub null : Ptr
null = 0

-- `next` is the address that the next allocation gives, and never null.
pub record Memory : Type 0 where
  pub next : Ptr
  pub buffers : Ptr → Option Buffer
  pub errors : Ptr → Option Error
  pub senders : Ptr → Option Sender
  pub opts : Ptr → Option SenderBuilder
  pub strings : Ptr → Option Bytes

-- What a C++ function throws: `line_sender_error`.
pub record Exception : Type 0 where
  pub code : Option CppErrorCode
  pub what : Message

pub data Run (A : Type 0) : Type 0 where
  returned : A → Memory → Run A
  thrown : Exception → Memory → Run A
  aborted : Run A
  fault : Run A

abbrev pub Cmd : Type 0 → Type 0
Cmd A = Memory → Run A

abbrev pub pure : {A : Type 0} → A → Cmd A
pure = returned

module _ {A B : Type 0} where
  abbrev pub and_then : Run A → (A → Cmd B) → Run B
  and_then (returned a m) k = k a m
  and_then (thrown e m) k = thrown e m
  and_then aborted k = aborted
  and_then fault k = fault

  infixl 5 ◌>>=◌ ◌>>◌
  abbrev pub ◌>>=◌ : Cmd A → (A → Cmd B) → Cmd B
  c >>= k = λ m. and_then (c m) k

  abbrev pub ◌>>◌ : Cmd A → Cmd B → Cmd B
  c >> d = c >>= λ _. d

abbrev pub update {ℓ} : {A : Type ℓ} → (Ptr → Option A) → Ptr → Option A → Ptr → Option A
update f p v q = if q == p then v else f q

abbrev pub found : {A : Type 0} → Option A → Cmd A
found (some a) m = returned a m
found none m = fault

-- What a C function that can fail returns: success, or the error that it stores in `*err_out`.
pub data Outcome (A : Type 0) : Type 0 where
  done : A → Outcome A
  failed : Ptr → Outcome A

abbrev pub alloc_buffer : Buffer → Cmd Ptr
alloc_buffer b m =
    returned m.next (record m { next = m.next + 1; buffers = update m.buffers m.next (some b) })

abbrev pub alloc_error : Error → Cmd Ptr
alloc_error e m =
    returned m.next (record m { next = m.next + 1; errors = update m.errors m.next (some e) })

abbrev pub load_buffer : Ptr → Cmd Buffer
load_buffer p m = found (m.buffers p) m

abbrev pub store_buffer : Ptr → Option Buffer → Cmd (Unit {0})
store_buffer p b m = returned tt (record m { buffers = update m.buffers p b })

abbrev pub load_error : Ptr → Cmd Error
load_error p m = found (m.errors p) m

abbrev pub store_error : Ptr → Option Error → Cmd (Unit {0})
store_error p e m = returned tt (record m { errors = update m.errors p e })

abbrev pub load_sender : Ptr → Cmd Sender
load_sender p m = found (m.senders p) m

abbrev pub store_sender : Ptr → Option Sender → Cmd (Unit {0})
store_sender p s m = returned tt (record m { senders = update m.senders p s })

abbrev pub alloc_sender : Sender → Cmd Ptr
alloc_sender s m =
    returned m.next (record m { next = m.next + 1; senders = update m.senders m.next (some s) })

abbrev pub alloc_opts : SenderBuilder → Cmd Ptr
alloc_opts b m =
    returned m.next (record m { next = m.next + 1; opts = update m.opts m.next (some b) })

abbrev pub load_opts : Ptr → Cmd SenderBuilder
load_opts p m = found (m.opts p) m

abbrev pub store_opts : Ptr → Option SenderBuilder → Cmd (Unit {0})
store_opts p b m = returned tt (record m { opts = update m.opts p b })

-- A block of bytes of the C library's heap, and `free`.
abbrev pub alloc_string : Bytes → Cmd Ptr
alloc_string s m =
    returned m.next (record m { next = m.next + 1; strings = update m.strings m.next (some s) })

abbrev pub load_string : Ptr → Cmd Bytes
load_string p m = found (m.strings p) m

abbrev pub store_string : Ptr → Option Bytes → Cmd (Unit {0})
store_string p s m = returned tt (record m { strings = update m.strings p s })

-- Going on behind a success only: `if (!c) goto on_error`.
abbrev pub and_on : {A B : Type 0} → Run (Outcome A) → (A → Cmd (Outcome B)) → Run (Outcome B)
and_on (returned (done a) m) k = k a m
and_on (returned (failed q) m) k = returned (failed q) m
and_on (thrown e m) k = thrown e m
and_on aborted k = aborted
and_on fault k = fault

infixr 5 ◌&>◌
abbrev pub ◌&>◌ : {B : Type 0} → Cmd (Outcome (Unit {0})) → Cmd (Outcome B) → Cmd (Outcome B)
c &> d = λ m. and_on (c m) (λ _. d)
