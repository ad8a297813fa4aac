-- ===== src/Cpp/LineSender/Temporary.antt =====
-- The constructors of `line_sender` in line_sender.hpp over the library: the options are a temporary
-- object.
use c_questdb_client.Base.{
  ◌+◌, ◌≤◌, ◌<◌, ◌≡◌, ◌≢◌, refl, true, false, Option, none, some, ◌==◌, inl, inr, arith, Bool-cases,
  Option-cases,
}
use c_questdb_client.Error.{Result, ok, Result-cases}
use c_questdb_client.Number.{Formatters}
use c_questdb_client.Builder.{SenderBuilder}
use c_questdb_client.Builder.Build.{Environment, build}
use c_questdb_client.Builder.Build.Total.{build-Ends, Built}
use c_questdb_client.Builder.Setters.Valid.{IsValid}
use c_questdb_client.Sender.{Sender, Network}
use c_questdb_client.Capi.Memory.{Ptr, null, Memory, Run, returned, thrown, aborted, fault, update}
use c_questdb_client.Capi.Ffi.Opts as FfiOpts
use c_questdb_client.Capi.Ffi.Library.{library}
use c_questdb_client.Cpp.Opts
use c_questdb_client.Cpp.Opts.{Opts, cpp_agent}
use c_questdb_client.Cpp.LineSender
use c_questdb_client.Cpp.LineSender.{LineSender}
use c_questdb_client.Cpp.LineSenderBuffer.View.{self, from_c_lem}

-- Nothing is allocated at null or from the next address on.
pub record IsWf (m : Memory) : Type 0 where
  pub live : null < m.next
  pub errors : (q : Ptr) → m.next ≤ q → m.errors q ≡ none
  pub senders : (q : Ptr) → m.next ≤ q → m.senders q ≡ none
  pub opts : (q : Ptr) → m.next ≤ q → m.opts q ≡ none

-- The same objects, the senders aside.
pub record Same (m m' : Memory) : Type 0 where
  pub buffers : (q : Ptr) → m'.buffers q ≡ m.buffers q
  pub errors : (q : Ptr) → m'.errors q ≡ m.errors q
  pub opts : (q : Ptr) → m'.opts q ≡ m.opts q
  pub strings : (q : Ptr) → m'.strings q ≡ m.strings q

-- A new object: a sender that is connected and had no address before; no other sender changes.
pub record IsNew (m m' : Memory) (o : LineSender) : Type 0 where
  pub sender : Sender
  pub there : m'.senders o.impl ≡ some sender
  pub connected : sender.connected ≡ true
  pub fresh : m.senders o.impl ≡ none
  pub others : (q : Ptr) → q ≢ o.impl → m'.senders q ≡ m.senders q

-- How a constructor may end: with a new object, or with an exception and no new sender; beside the
-- sender nothing is left allocated, and the process does not end.
abbrev pub Ended : Memory → Run LineSender → Type 0
Ended m (returned o m') = IsNew m m' o × Same m m'
Ended m (thrown e m') = ((q : Ptr) → m'.senders q ≡ m.senders q) × Same m m'
Ended m aborted = ⊥
Ended m fault = ⊥

-- What was made and released again leaves the objects as they were.
pub forget :
    {A : Type 0} (f g : Ptr → Option A) (p : Ptr)
    → f p ≡ none
    → ((q : Ptr) → (q == p) ≡ false → g q ≡ f q)
    → (q : Ptr) → update g p none q ≡ f q
forget f g p none_is same q = elim (Bool-cases (q == p)) [
  | inl is ↦ let there : q ≡ p = ground arith in rw (is, there, none_is) refl
  | inr ne ↦ rw (ne, same q ne) refl
]

pub off :
    {A : Type 0} (f : Ptr → Option A) (p : Ptr) (v : Option A) (q : Ptr)
    → (q == p) ≡ false
    → update f p v q ≡ f q
off f p v q ne = rw ne refl

module _ (x : Formatters) (n : Network) (env : Environment) where
  pub build-Built :
      (b : SenderBuilder) (r : Result Sender) (s : Sender)
      → IsValid b
      → build env b ≡ some r
      → r ≡ ok s
      → Built b s
  build-Built b r s v is good = let e = build-Ends env b v in rw (is, good) at e

  -- The options of a builder that is valid, in the memory `m` at its next address.
  pub from_temporary-Ended :
      (m : Memory) (g : Ptr → Option SenderBuilder) (b : SenderBuilder)
      → IsWf m
      → IsValid b
      → g m.next ≡ some b
      → ((q : Ptr) → (q == m.next) ≡ false → g q ≡ m.opts q)
      → Ended m (
          LineSender.from_temporary
            (library x n env)
            (record { impl = m.next })
            (record m { next = m.next + 1; opts = g }))
  unfolding LineSender.from_temporary LineSender.construct Opts.destruct Opts.reset
      FfiOpts.sender_build FfiOpts.opts_free
  from_temporary-Ended m g b wf v there same =
      let live : (m.next == null) ≡ false = let l = wf.live in ground arith in
      elim (Option-cases (build env b)) [
        | inl none_is ↦ absurd (let e = build-Ends env b v in rw none_is at e)
        | inr (r, is) ↦ elim (Result-cases r) [
          | inl (s, good) ↦
              rw (there, is, good, live, there)
                (
                  record {
                    sender = s;
                    there = rw self refl;
                    connected = (build-Built b r s v is good).connected;
                    fresh = wf.senders (m.next + 1) (omega arith);
                    others = λ q ne. off m.senders (m.next + 1) (some s) q (ground arith);
                  },
                  record {
                    buffers = λ q. refl;
                    errors = λ q. refl;
                    opts = forget m.opts g m.next (wf.opts m.next (omega arith)) same;
                    strings = λ q. refl;
                  },
                )
          | inr (e, bad) ↦
              let q = m.next + 1 in
              let raised : Memory = record m {
                next = q + 1;
                errors = update m.errors q (some e);
                opts = g;
              } in
              let alive : (q == null) ≡ false = ground arith in
              rw (there, is, bad, from_c_lem x n env q e raised alive (rw self refl), live, there)
                (
                  λ q'. refl,
                  record {
                    buffers = λ q'. refl;
                    errors =
                        forget m.errors (update m.errors q (some e)) q (wf.errors q (omega arith))
                          (off m.errors q (some e));
                    opts = forget m.opts g m.next (wf.opts m.next (omega arith)) same;
                    strings = λ q'. refl;
                  },
                )
        ]
      ]
