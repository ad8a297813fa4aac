-- ===== src/Sender/Flush.antt =====
-- What a flush does with the buffer, the sender and the network.
use c_questdb_client.Base.{
  ◌≡◌, ◌≢◌, ◌≤◌, ◌⊎◌, refl, Bool, true, false, none, some, [], ◌∷◌, ltb, length, arith, inl, inr,
  Bool-cases,
}
use c_questdb_client.Op.{Op}
use c_questdb_client.Error.{Result, ok, err, Error, error, socket_error, not_connected}
use c_questdb_client.Text.{Bytes}
use c_questdb_client.Number.{Formatters}
use c_questdb_client.Buffer.{Buffer, check_op}
use c_questdb_client.Buffer.Rows.Invariant.{Reach, flush-ne-nil}
use c_questdb_client.Sender.{
  Sender, Network, ProtocolHandler, Flushed, flushed, flush_impl, must_close, after_check, send_to,
  is_empty,
}
    -- What a successful flush has established.

-- What a successful flush has established.
pub record Delivered (s : Sender) (b : Buffer) (transactional : Bool) (f : Flushed) : Type 0 where
  pub whole : f.wire ≡ some b.output
  pub within : length b.output ≤ s.max_buf_size
  pub single :
      transactional ≡ true → (s.handler ≡ ProtocolHandler.http) × (b.state.transactional ≡ true)
  pub kept : f.sender ≡ s

is_empty-false : (s : Bytes) → s ≢ [] → is_empty s ≡ false
unfolding is_empty
is_empty-false [] h = absurd (h refl)
is_empty-false (c ∷ s) h = ground arith

refused : {e : Error} → ◌≡◌ {A = Result (Unit {0})} (err e) (ok tt) → ⊥
refused h = cc

module _ (n : Network) where
  send_to-Delivered :
      (h : ProtocolHandler) (s : Sender) (b : Buffer) (t : Bool)
      → s.handler ≡ h
      → length b.output ≤ s.max_buf_size
      → (send_to n h s b t).result ≡ ok tt
      → Delivered s b t (send_to n h s b t)
  unfolding send_to
  send_to-Delivered ProtocolHandler.socket s b t e le h = record {
    whole = ground arith;
    within = le;
    single = ground arith;
    kept = ground arith;
  }
  send_to-Delivered ProtocolHandler.http s b t e le h = record {
    whole = ground arith;
    within = le;
    single = ground arith;
    kept = ground arith;
  }

  after_check-Delivered :
      (s : Sender) (b : Buffer) (t : Bool) (r : Result (Unit {0}))
      → (r ≡ ok tt → b.output ≢ [])
      → (after_check n r s b t).result ≡ ok tt
      → Delivered s b t (after_check n r s b t)
  unfolding after_check
  after_check-Delivered s b t (err e) full h = absurd (cc)
  after_check-Delivered s b t (ok u) full h =
      elim (Bool-cases (ltb s.max_buf_size (length b.output))) [
        | inl big ↦ absurd (refused (rw big at h))
        | inr small ↦
            let some_bytes = is_empty-false b.output (full refl) in
            rw (small, some_bytes)
              (send_to-Delivered s.handler s b t refl (ground arith) (rw (small, some_bytes) at h))
      ]

  after_check-ok :
      (s : Sender) (b : Buffer) (t : Bool) (r : Result (Unit {0}))
      → (after_check n r s b t).result ≡ ok tt
      → r ≡ ok tt
  unfolding after_check
  after_check-ok s b t (ok u) h = refl
  after_check-ok s b t (err e) h = h

  flush_impl_up :
      (s : Sender) (b : Buffer) (t : Bool)
      → s.connected ≡ true
      → flush_impl n s b t ≡ after_check n (check_op Op.flush b).0 s b t
  unfolding flush_impl
  flush_impl_up s b t up = ground (arith, up)

  flush_impl_down :
      (s : Sender) (b : Buffer) (t : Bool)
      → s.connected ≡ false
      → flush_impl n s b t ≡ flushed (err (error socket_error not_connected)) s none
  unfolding flush_impl
  flush_impl_down s b t down = ground (arith, down)

  -- A flush of a buffer that the API can produce succeeds only if it hands the whole buffer, which
  -- is not empty and within the limit, to the network; a transactional one only over HTTP and for a
  -- transactional buffer. It leaves the sender as it was.
  pub flush_impl-Delivered :
      (x : Formatters) (s : Sender) (b : Buffer) (t : Bool)
      → Reach x b
      → (flush_impl n s b t).result ≡ ok tt
      → (b.output ≢ []) × Delivered s b t (flush_impl n s b t)
  flush_impl-Delivered x s b t r h = elim (Bool-cases s.connected) [
    | inl up ↦
        let up_eq = flush_impl_up s b t up in
        let done : (after_check n (check_op Op.flush b).0 s b t).result ≡ ok tt = rw up_eq at h in
        let full = flush-ne-nil x r in
        (
          full (after_check-ok s b t _ done),
          rw up_eq (after_check-Delivered s b t (check_op Op.flush b).0 full done),
        )
    | inr down ↦ absurd (refused (rw (flush_impl_down s b t down) at h))
  ]

  send_to-must_close :
      (h : ProtocolHandler) (s : Sender) (b : Buffer) (t : Bool)
      → s.connected ≡ true
      → (send_to n h s b t).sender.connected ≡ false
      → (h ≡ ProtocolHandler.socket)
        × (n.write_all b.output ≡ false)
        × ((send_to n h s b t).wire ≡ some b.output)
  unfolding send_to
  send_to-must_close ProtocolHandler.socket s b t up h = ground arith
  send_to-must_close ProtocolHandler.http s b t up h = ground arith

  after_check-must_close :
      (r : Result (Unit {0})) (s : Sender) (b : Buffer) (t : Bool)
      → s.connected ≡ true
      → (after_check n r s b t).sender.connected ≡ false
      → (s.handler ≡ ProtocolHandler.socket)
        × (n.write_all b.output ≡ false)
        × ((after_check n r s b t).wire ≡ some b.output)
  unfolding after_check
  after_check-must_close (err e) s b t up h = ground arith
  after_check-must_close (ok u) s b t up h = ground (arith, send_to-must_close s.handler s b t)

  -- A sender that is unusable behind a flush either was so before, and then the flush sent nothing
  -- and failed with a socket error, or the flush handed the buffer to a socket whose write failed.
  pub must_close-flush_impl :
      (s : Sender) (b : Buffer) (t : Bool)
      → must_close (flush_impl n s b t).sender ≡ true
      → ((must_close s ≡ true)
          × (flush_impl n s b t ≡ flushed (err (error socket_error not_connected)) s none))
        ⊎ ((s.handler ≡ ProtocolHandler.socket)
            × (n.write_all b.output ≡ false)
            × ((flush_impl n s b t).wire ≡ some b.output))
  unfolding must_close
  must_close-flush_impl s b t h = elim (Bool-cases s.connected) [
    | inl up ↦ inr (
        rw (flush_impl_up s b t up) (
          after_check-must_close (check_op Op.flush b).0 s b t up
            (ground (arith, flush_impl_up s b t up))))
    | inr down ↦ inl (ground arith, flush_impl_down s b t down)
  ]
